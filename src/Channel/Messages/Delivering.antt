-- ===== src/Channel/Messages/Delivering.antt =====
-- The messages that a channel of Source/ARTRealtimeChannel.m delivers, each as it is decoded.
use ably_cocoa.Base.{
  ℕ, zero, suc, ◌+◌, ◌/◌, ◌%◌, ltb, Bool, true, false, not, Option, none, some, List, [], ◌∷◌, ◌++◌,
  Text, codes, if◌then◌else◌, is_some, text_eq, ◌==◌,
}
use ably_cocoa.Types.{ChannelEvent, ErrorInfo}
use ably_cocoa.Types.Codes.{create_with_code}
use ably_cocoa.Message.{BaseMessage, ProtocolMessage, Message, PresenceMessage, items}
use ably_cocoa.Presence.Order.{or_null, colon}
use ably_cocoa.Channel.{recovery_ended, message, Channel, Env, Result, ◌▷◌, quietly}
use ably_cocoa.Channel.Transition.{emit_change, internal_attach}

-- `[NSString stringWithFormat:@"%d"]` of a number that is not negative, by its digits. The number
-- falls at each step, so its successor is enough fuel.
unfoldable pub decimal_from : ℕ → ℕ → Text → Text
decimal_from zero n acc = acc
decimal_from (suc fuel) n acc =
    let rest = decimal_from fuel (n / 10) ((48 + n % 10) ∷ acc) in
    if ltb n 10 then (48 + n) ∷ acc else rest

unfoldable pub decimal : ℕ → Text
unfolding decimal_from
decimal n = decimal_from (suc n) n []

-- `%@:%d` of the id of the protocol message and the index.
unfoldable pub id_at : ProtocolMessage → ℕ → Text
id_at pm i = or_null pm.id ++ colon ∷ decimal i

abbrev pub or_default {ℓ} : {A : Type ℓ} → Option A → Option A → Option A
or_default none d = d
or_default (some a) d = some a

-- The timestamp and the id of a message that has none.
unfoldable pub fill_base : ProtocolMessage → ℕ → BaseMessage → BaseMessage
fill_base pm i b = record b {
  timestamp = or_default b.timestamp pm.timestamp;
  id = or_default b.id (some (id_at pm i));
}

unfoldable pub fill : ProtocolMessage → ℕ → Message → Message
fill pm i m = record m { base = fill_base pm i m.base }

unfoldable pub fill_presence : ProtocolMessage → ℕ → PresenceMessage → PresenceMessage
fill_presence pm i m = record m { base = fill_base pm i m.base }

-- startDecodeFailureRecoveryWithChannelSerial:error:
unfoldable pub start_decode_failure_recovery :
    Option Text → Option ErrorInfo → Env → Channel → Result
start_decode_failure_recovery serial e env c =
    if c.decode_failure_recovery_in_progress
    then quietly c
    else internal_attach (some recovery_ended)
        (record { reason = e; channel_serial = serial; retry_attempt = none }) env
        (record c { decode_failure_recovery_in_progress = true })

abbrev pub unable_to_decode : ℕ
unable_to_decode = 40018

abbrev pub decode_error : Text → ErrorInfo
decode_error reason = create_with_code unable_to_decode (codes "Failed to decode data: " ++ reason)

-- The error and the update event for data that cannot be decoded.
unfoldable pub report_decode_error : ErrorInfo → Channel → Result
report_decode_error e c =
    emit_change
      (record {
        current = c.state;
        previous = c.state;
        event = ChannelEvent.update;
        reason = some e;
        resumed = false;
        retry_attempt = none;
      })
      (record c { error_reason = some e })

-- What the decoding of a message comes to: the message with no error, with an error that is only
-- reported, or with one that starts the recovery.
pub data Decoded : Type 0 where
  decoded : Message → Decoded
  reported : ErrorInfo → Message → Decoded
  undecodable : ErrorInfo → Decoded

abbrev pub decoded_with : Message → Option (ℕ × Text) → Decoded
decoded_with m none = decoded m
decoded_with m (some (code, reason)) =
    if code == unable_to_decode
    then undecodable (decode_error reason)
    else reported (decode_error reason) m

unfoldable pub decode_message : Env → ℕ → Message → Decoded
decode_message env i m =
    if is_some m.payload then decoded_with (env.decode i m).0 (env.decode i m).1 else decoded m

unfoldable pub deliver : ProtocolMessage → ℕ → Message → Channel → Result
deliver pm i m c =
    let f = fill pm i m in (record c { last_payload_message_id = f.id }, message f ∷ [])

-- A message by what its decoding came to, and the messages that follow.
unfoldable pub deliver_decoded :
    Decoded → ProtocolMessage → ℕ → (Channel → Result) → Env → Channel → Result
deliver_decoded (decoded m) pm i rest env c = deliver pm i m c ▷ rest
deliver_decoded (reported e m) pm i rest env c = report_decode_error e c ▷ deliver pm i m ▷ rest
deliver_decoded (undecodable e) pm i rest env c =
    report_decode_error e c
    ▷ start_decode_failure_recovery c.last_payload_channel_serial (some e) env

-- The loop of `onMessage:` from index `i`; its end stores the serial of the protocol message.
unfoldable pub deliver_all : ProtocolMessage → ℕ → List Message → Env → Channel → Result
deliver_all pm i [] env c = quietly (record c { last_payload_channel_serial = pm.channel_serial })
deliver_all pm i (m ∷ ms) env c =
    deliver_decoded (decode_message env i m) pm i (deliver_all pm (suc i) ms env) env c

-- Whether the first message is a delta to another message than the last one.
abbrev pub other_than : Option Text → Option Text → Bool
other_than (some a) (some b) = not (text_eq a b)
other_than _ _ = false

unfoldable pub is_incompatible : Env → Channel → List Message → Bool
is_incompatible env c [] = false
is_incompatible env c (m ∷ ms) = other_than (env.delta_from m) c.last_payload_message_id

abbrev description_of_first : Env → List Message → Text
description_of_first env [] = codes "(null)"
description_of_first env (m ∷ ms) = env.description m

abbrev pub incompatible : Env → Channel → List Message → ErrorInfo
incompatible env c ms = create_with_code unable_to_decode (
    codes "previous id '"
    ++ or_null c.last_payload_message_id
    ++ codes "' is incompatible with message delta "
    ++ description_of_first env ms)

-- onMessage:
unfoldable pub on_message : ProtocolMessage → Env → Channel → Result
on_message pm env c =
    if is_incompatible env c (items pm.messages)
    then start_decode_failure_recovery c.last_payload_channel_serial
        (some (incompatible env c (items pm.messages))) env c
    else deliver_all pm 0 (items pm.messages) env c
