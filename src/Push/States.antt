-- ===== src/Push/States.antt =====
-- The states of Source/ARTPushActivationState.m and what they do with events.
use ably_cocoa.Base.{
  Bool, true, false, not, Option, none, some, List, [], ◌∷◌, Text, codes, text_eq, is_some, is_none,
  if◌then◌else◌, pos,
}
use ably_cocoa.Types.{ErrorInfo}

-- ARTDeviceIdentityTokenDetails
pub record IdentityToken : Type 0 where
  pub token : Text
  pub client_id : Option Text

-- The subclasses of ARTPushActivationEvent.
pub data Event : Type 0 where
  called_activate called_deactivate got_push_device_details deregistered : Event
  getting_push_device_details_failed : ErrorInfo → Event
  got_device_registration : Option IdentityToken → Event
  getting_device_registration_failed : ErrorInfo → Event
  registration_synced : Option IdentityToken → Event
  sync_registration_failed : ErrorInfo → Event
  deregistration_failed : ErrorInfo → Event

-- The subclasses of ARTPushActivationState; the last is kept for archives of old versions.
pub data State : Type 0 where
  not_activated waiting_for_device_registration waiting_for_push_device_details : State
  waiting_for_new_push_device_details after_registration_sync_failed : State
  waiting_for_deregistration after_registration_update_failed : State
  waiting_for_registration_sync : Event → State

pub data Effect : Type 0 where
  register_for_apns device_registration device_update_registration sync_device : Effect
  device_unregistration : Effect
  activated deactivated updated : Option ErrorInfo → Effect
  send_event : Event → Effect

-- What ARTDeviceStorage keeps of a device: its identity token, the APNs token, and the one that old
-- versions stored under another key.
pub record Storage : Type 0 where
  pub identity_token : Option IdentityToken
  pub apns_token : Option Text
  pub legacy_apns_token : Option Text

-- What the transitions read and write of ARTLocalDevice, with its storage.
pub record Device : Type 0 where
  pub identity_token_details : Option IdentityToken
  pub client_id : Option Text
  pub apns_device_token : Option Text
  pub storage : Storage

-- apnsDeviceTokenOfType:fromStorage: for the default type
abbrev pub apns_device_token_from_storage : Storage → Option Text
apns_device_token_from_storage s = elim s.apns_token [
  | none ↦ s.legacy_apns_token
  | some t ↦ some t
]

-- load:storage:logger: of ARTLocalDevice, for what is modelled of the device.
unfoldable pub load : Option Text → Storage → Device
load c s = record {
  identity_token_details = s.identity_token;
  client_id = c;
  apns_device_token = apns_device_token_from_storage s;
  storage = s;
}

-- setAndPersistIdentityTokenDetails: of ARTLocalDevice.
unfoldable pub set_identity_token_details : Option IdentityToken → Device → Device
set_identity_token_details t d = record d {
  identity_token_details = t;
  storage = record d.storage { identity_token = t };
  client_id =
      if is_none d.client_id then elim t [ none ↦ none | some i ↦ i.client_id ] else d.client_id;
}

abbrev pub Outcome : Type 0
Outcome = Option (State × Device × List Effect)

abbrev pub goes : State → Device → List Effect → Outcome
goes s d es = some (s, d, es)

abbrev pub is_activate : Event → Bool
is_activate called_activate = true
is_activate _ = false

abbrev pub incompatible_client_id : ErrorInfo
incompatible_client_id = record {
  code = pos 61002;
  status_code = pos 610;
  message =
      codes
        "Activation failed: present clientId is not compatible with existing device registration";
}

-- The device's client id and that of the instance are both there and differ.
abbrev pub clashes : Option Text → Option Text → Bool
clashes (some a) (some b) = not (text_eq a b)
clashes _ _ = false

-- validateAndSync, for the client id of the instance.
unfoldable pub validate_and_sync : Option Text → Event → Device → Outcome
validate_and_sync instance_client_id e d =
    if is_some d.identity_token_details
    then goes (waiting_for_registration_sync e) d (
        (if clashes d.client_id instance_client_id
          then send_event (sync_registration_failed incompatible_client_id)
          else sync_device)
        ∷ [])
    else if is_some d.apns_device_token
    then goes waiting_for_push_device_details d (send_event got_push_device_details ∷ [])
    else goes waiting_for_push_device_details d []

abbrev pub prepending : Effect → Outcome → Outcome
prepending x none = none
prepending x (some (s, d, es)) = some (s, d, x ∷ es)

-- The callback that ends a registration sync: of `activate`, or of an update.
abbrev pub synced_call : Event → Option ErrorInfo → Effect
synced_call from e = if is_activate from then activated e else updated e

-- A sync's answer that carries a token replaces the device's token.
abbrev pub keep_token : Option IdentityToken → Device → Device
keep_token none d = d
keep_token (some t) d = set_identity_token_details (some t) d

-- transition: of each state.
unfoldable pub transition : Option Text → State → Event → Device → Outcome
transition c not_activated called_deactivate d = goes not_activated d (deactivated none ∷ [])
transition c not_activated called_activate d =
    prepending register_for_apns (validate_and_sync c called_activate d)
transition c waiting_for_device_registration called_activate d =
    goes waiting_for_device_registration d []
transition c waiting_for_device_registration (got_device_registration t) d =
    goes waiting_for_new_push_device_details (set_identity_token_details t d) (activated none ∷ [])
transition c waiting_for_device_registration (getting_device_registration_failed e) d =
    goes not_activated d (activated (some e) ∷ [])
transition c waiting_for_push_device_details called_activate d =
    goes waiting_for_push_device_details d []
transition c waiting_for_push_device_details called_deactivate d =
    goes not_activated d (deactivated none ∷ [])
transition c waiting_for_push_device_details got_push_device_details d =
    goes waiting_for_device_registration d (device_registration ∷ [])
transition c waiting_for_push_device_details (getting_push_device_details_failed e) d =
    goes not_activated d (activated (some e) ∷ [])
transition c waiting_for_new_push_device_details called_activate d =
    goes waiting_for_new_push_device_details d (activated none ∷ [])
transition c waiting_for_new_push_device_details called_deactivate d =
    goes waiting_for_deregistration d (device_unregistration ∷ [])
transition c waiting_for_new_push_device_details got_push_device_details d =
    goes (waiting_for_registration_sync got_push_device_details) d (device_update_registration ∷ [])
transition c (waiting_for_registration_sync from) called_activate d =
    if is_activate from
    then none
    else goes (waiting_for_registration_sync from) d (activated none ∷ [])
transition c (waiting_for_registration_sync from) (registration_synced t) d =
    goes waiting_for_new_push_device_details (keep_token t d) (synced_call from none ∷ [])
transition c (waiting_for_registration_sync from) (sync_registration_failed e) d =
    goes after_registration_sync_failed d (synced_call from (some e) ∷ [])
transition c after_registration_sync_failed called_activate d =
    validate_and_sync c called_activate d
transition c after_registration_sync_failed got_push_device_details d =
    validate_and_sync c got_push_device_details d
transition c after_registration_sync_failed called_deactivate d =
    goes waiting_for_deregistration d (device_unregistration ∷ [])
transition c waiting_for_deregistration called_deactivate d = goes waiting_for_deregistration d []
transition c waiting_for_deregistration deregistered d =
    goes not_activated (set_identity_token_details none d) (deactivated none ∷ [])
transition c waiting_for_deregistration (deregistration_failed e) d =
    goes waiting_for_deregistration d (deactivated (some e) ∷ [])
transition _ _ _ _ = none
