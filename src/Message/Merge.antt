-- ===== src/Message/Merge.antt =====
-- What `mergeFrom:` of Source/ARTProtocolMessage.m keeps and refuses.
use ably_cocoa.Base.{
  ◌+◌, ◌≤◌, ◌≡◌, refl, ◌∙◌, ◌⊎◌, inl, inr, true, false, List, [], ◌∷◌, ◌++◌, arith, Bool-cases,
  Text, text_eq, text_eq_iff, any, All, length, same_text,
}
use ably_cocoa.Types.{Action, action_eq}
use ably_cocoa.Message.{
  Message, ProtocolMessage, items, total_size, max_size, merge_would_exceed_max_size, merge_payload,
  merge_from, adding, client_ids_are_different, distinct, client_ids, messages_without_id,
  presence_without_id,
}

client_ids-append : (xs ys : List Message) → client_ids (xs ++ ys) ≡ client_ids xs ++ client_ids ys
client_ids-append [] ys = refl
client_ids-append (x ∷ xs) ys = rw (client_ids-append xs ys)

distinct-pos : (t : Text) (ts : List Text) → 1 ≤ length (distinct (t ∷ ts))
unfolding distinct
distinct-pos t [] = omega arith
distinct-pos t (u ∷ ts) = ground (arith, distinct-pos u ts)

any-text_eq :
    (t c : Text) (ts : List Text) → any (text_eq t) ts ≡ true → All (λ u. u ≡ c) ts → t ≡ c
any-text_eq t c [] h a = cc
any-text_eq t c (u ∷ ts) h a = ground (arith, text_eq_iff t u, any-text_eq t c ts)

-- All texts of a list with one distinct text are that text.
distinct-uniform : (ts : List Text) → length (distinct ts) ≡ 1 → (c : Text) × All (λ t. t ≡ c) ts
unfolding distinct
distinct-uniform [] h = ([], tt)
distinct-uniform (t ∷ []) h = (t, (refl, tt))
distinct-uniform (t ∷ u ∷ ts) h = elim (Bool-cases (any (text_eq t) (u ∷ ts))) [
  | inl old ↦
      let (c, same) = distinct-uniform (u ∷ ts) (ground arith) in
      (c, (any-text_eq t c (u ∷ ts) old same, same))
  | inr new ↦ absurd (ground (arith, distinct-pos u ts))
]

-- The facts that the guards of `mergeFrom:` have established when it goes on to the payload.
record Passed (pm src : ProtocolMessage) : Type 0 where
  channel_eq : same_text src.channel pm.channel ≡ true
  action_same : action_eq src.action pm.action ≡ true
  fits : merge_would_exceed_max_size pm (items src.messages) ≡ false
  one_client : client_ids_are_different pm (items src.messages) ≡ false

merge_from-inversion :
    (pm src : ProtocolMessage)
    → (merge_from pm src ≡ (pm, false))
      ⊎ (Passed pm src × (merge_from pm src ≡ merge_payload pm.action pm src))
unfolding merge_from
merge_from-inversion pm src = elim (Bool-cases (same_text src.channel pm.channel)) [
  | inr other ↦ inl (rw other)
  | inl same ↦ elim (Bool-cases (action_eq src.action pm.action)) [
    | inr other ↦ inl (rw (same, other))
    | inl like ↦ elim (Bool-cases (merge_would_exceed_max_size pm (items src.messages))) [
      | inl big ↦ inl (rw (same, like, big))
      | inr fits ↦ elim (Bool-cases (client_ids_are_different pm (items src.messages))) [
        | inl mixed ↦ inl (rw (same, like, fits, mixed))
        | inr one ↦ inr (
          record { channel_eq = same; action_same = like; fits = fits; one_client = one },
          rw (same, like, fits, one),
        )
      ]
    ]
  ]
]

-- One of the two payload arrays is the receiver's followed by the source's, and none of its
-- messages has an id.
abbrev pub Extends : ProtocolMessage → ProtocolMessage → ProtocolMessage → Type 0
Extends pm src r =
    ((r ≡ record pm { messages = adding pm.messages src.messages })
      × (messages_without_id r.messages ≡ true))
    ⊎ ((r ≡ record pm { presence = adding pm.presence src.presence })
        × (presence_without_id r.presence ≡ true))

pub record Merged (pm src : ProtocolMessage) : Type 0 where
  pub accepted : (merge_from pm src).1 ≡ true
  pub extended : Extends pm src (merge_from pm src).0
  pub bounded :
      total_size (items pm.messages) + total_size (items src.messages)
      ≤ max_size pm.connection_details
  pub one_client :
      (c : Text) × All (λ t. t ≡ c) (client_ids (items pm.messages ++ items src.messages))

merge_payload-cases :
    (a : Action) (pm src : ProtocolMessage)
    → (merge_payload a pm src ≡ (pm, false))
      ⊎ (((merge_payload a pm src).1 ≡ true) × Extends pm src (merge_payload a pm src).0)
unfolding merge_payload
merge_payload-cases Action.message pm src =
    elim (Bool-cases (messages_without_id (adding pm.messages src.messages))) [
      | inl fresh ↦ inr (rw fresh, rw fresh (inl (refl, fresh)))
      | inr stale ↦ inl (rw stale)
    ]
merge_payload-cases Action.presence pm src =
    elim (Bool-cases (presence_without_id (adding pm.presence src.presence))) [
      | inl fresh ↦ inr (rw fresh, rw fresh (inr (refl, fresh)))
      | inr stale ↦ inl (rw stale)
    ]
merge_payload-cases _ pm src = inl refl

Passed-bounded :
    (pm src : ProtocolMessage)
    → merge_would_exceed_max_size pm (items src.messages) ≡ false
    → total_size (items pm.messages) + total_size (items src.messages)
      ≤ max_size pm.connection_details
unfolding merge_would_exceed_max_size
Passed-bounded pm src h = ground arith

Passed-one_client :
    (pm src : ProtocolMessage)
    → client_ids_are_different pm (items src.messages) ≡ false
    → (c : Text) × All (λ t. t ≡ c) (client_ids (items pm.messages ++ items src.messages))
unfolding client_ids_are_different
Passed-one_client pm src h = rw (client_ids-append (items pm.messages) (items src.messages)) (
    distinct-uniform (client_ids (items pm.messages) ++ client_ids (items src.messages))
      (ground arith))

-- A merge either refuses and leaves the receiver as it was, or appends the source's messages (or
-- its presence messages) to the receiver's; it accepts only messages without ids, of one client
-- id, whose total size is within the maximum.
pub merge_from-cases :
    (pm src : ProtocolMessage) → (merge_from pm src ≡ (pm, false)) ⊎ Merged pm src
merge_from-cases pm src = elim (merge_from-inversion pm src) [
  | inl refused ↦ inl refused
  | inr (passed, e) ↦ elim (merge_payload-cases pm.action pm src) [
    | inl same ↦ inl (e ∙ same)
    | inr (yes', ext) ↦ inr (record {
      accepted = rw e yes';
      extended = rw e ext;
      bounded = Passed-bounded pm src passed.fits;
      one_client = Passed-one_client pm src passed.one_client;
    })
  ]
]
