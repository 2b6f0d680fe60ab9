-- ===== src/Emitter/Refined.antt =====
-- Runs of an emitter of Source/ARTEventEmitter.m with a user queue, and of one without.
use ably_cocoa.Base.{
  ℕ, suc, ◌≡◌, refl, sym, ◌∙◌, ap, subst, Bool, true, false, not, Option, none, some, List, [], ◌∷◌,
  ◌++◌, Text, if◌then◌else◌, Bool-cases, inl, inr, keep,
}
use ably_cocoa.Emitter.{
  Listener, Emitter, Result, new_emitter, stop_timer, listener, enlist, listen, same_event,
  delisted, without_id, remove_object, run_block, off_event, off_listener, remove_observer,
  remove_observers, all_ids, off, removed_from_center, receive, then_do, notify, emit, post,
  set_timer, start_timer, stop_timer_of, time_out,
}
use ably_cocoa.Emitter.Runs.{Call, run, run_all}
use ably_cocoa.Emitter.Deferred.{
  live, settled, Agrees, quietly-Agrees, then_do-Agrees, receive-Agrees, update-settled,
  keep-append, removed-keep, keep-removed, remove_observer-settled, remove_observer-queue,
  remove_observers-settled,
}

-- A listener that is invalidated does nothing.
receive-invalidated : (l : Listener) (m : Emitter) → l.invalidated ≡ true → receive l m ≡ (m, [])
unfolding receive
receive-invalidated l m gone = rw gone

reached : Option Text → Listener → Emitter → Result
reached name l m = if same_event l.event name then receive l m else (m, [])

reached-invalidated :
    (name : Option Text) (l : Listener) (m : Emitter)
    → l.invalidated ≡ true
    → reached name l m ≡ (m, [])
unfolding reached
reached-invalidated name l m gone = elim (Bool-cases (same_event l.event name)) [
  | inl named ↦ rw named (receive-invalidated l m gone)
  | inr other ↦ rw other
]

reached-Agrees :
    (name : Option Text) (l : Listener) (m : Emitter)
    → m.has_user_queue ≡ true
    → Agrees (reached name l m) (reached name l (settled m))
unfolding reached
reached-Agrees name l m h = elim (Bool-cases (same_event l.event name)) [
  | inl named ↦ rw named (receive-Agrees l m h)
  | inr other ↦ rw other (quietly-Agrees m (settled m) h refl)
]

notify-Agrees :
    (name : Option Text) (ls : List Listener) (m : Emitter)
    → m.has_user_queue ≡ true
    → Agrees (notify name ls m) (notify name (keep live ls) (settled m))
unfolding notify reached
notify-Agrees name [] m h = quietly-Agrees m (settled m) h refl
notify-Agrees name (l ∷ ls) m h =
    let kept =
      λ (b : Bool). notify name (if b then l ∷ keep live ls else keep live ls) (settled m) in
    elim (Bool-cases l.invalidated) [
      | inl gone ↦
          subst (λ b. Agrees (then_do (reached name l m) (notify name ls)) (kept b))
            (sym (ap not gone))
            (subst (λ r. Agrees (then_do r (notify name ls)) (kept false))
              (sym (reached-invalidated name l m gone)) (notify-Agrees name ls m h))
      | inr here ↦
          let first = reached-Agrees name l m h in
          subst (λ b. Agrees (then_do (reached name l m) (notify name ls)) (kept b))
            (sym (ap not here))
            (then_do-Agrees (reached name l m) (reached name l (settled m)) (notify name ls)
              (notify name (keep live ls)) first
              (notify-Agrees name ls (reached name l m).0 first.queue))
    ]

post-Agrees :
    (name : Option Text) (m : Emitter)
    → m.has_user_queue ≡ true
    → Agrees (post name m) (post name (settled m))
post-Agrees name m h = notify-Agrees name m.observers m h

emit-Agrees :
    (event : Option Text) (m : Emitter)
    → m.has_user_queue ≡ true
    → Agrees (emit event m) (emit event (settled m))
unfolding emit
emit-Agrees none m h = post-Agrees none m h
emit-Agrees (some e) m h =
    let first = post-Agrees (some e) m h in
    then_do-Agrees (post (some e) m) (post (some e) (settled m)) (post none) (post none) first
      (post-Agrees none (post (some e) m).0 first.queue)

enlist-settled :
    (k : ℕ) (event : Option Text) (m : Emitter)
    → settled (enlist k event m) ≡ enlist k event (settled m)
enlist-settled k none m = refl
enlist-settled k (some e) m = refl

enlist-queue :
    (k : ℕ) (event : Option Text) (m : Emitter)
    → (enlist k event m).has_user_queue ≡ m.has_user_queue
enlist-queue k none m = refl
enlist-queue k (some e) m = refl

off_listener-settled :
    (k : ℕ) (event : Option Text) (m : Emitter)
    → m.has_user_queue ≡ true
    → off_listener k event (settled m) ≡ settled (off_listener k event m)
unfolding off_listener
off_listener-settled k event m h =
    ap {A = Emitter}
      (λ b. record b {
        listeners = delisted k event m.listeners;
        any_listeners = without_id k m.any_listeners;
      })
      (sym (remove_observer-settled k m h))

remove_observers-queue :
    (ks : List ℕ) (m : Emitter) → (remove_observers ks m).has_user_queue ≡ m.has_user_queue
remove_observers-queue [] m = refl
remove_observers-queue (k ∷ ks) m =
    remove_observers-queue ks (remove_observer k m) ∙ remove_observer-queue k m

run-Agrees :
    (c : Call) (m : Emitter) → m.has_user_queue ≡ true → Agrees (run c m) (run c (settled m))
unfolding listen off_listener off_event off set_timer start_timer stop_timer_of time_out
    removed_from_center
run-Agrees (Call.listens is_once event callback) m h =
    let new = listener m.next_id event is_once callback in
    let grown = record m { observers = m.observers ++ new ∷ []; next_id = suc m.next_id } in
    quietly-Agrees (enlist m.next_id event grown) (listen is_once event callback (settled m))
      (enlist-queue m.next_id event grown ∙ h)
      (sym (
        enlist-settled m.next_id event grown
        ∙ ap
            (λ o.
              enlist m.next_id event
                (record (settled m) { observers = o; next_id = suc m.next_id }))
            (keep-append m.observers new refl)))
run-Agrees (Call.takes_off_event e k event) m h = elim (Bool-cases (same_event (some e) event)) [
  | inl same ↦ rw same (
      quietly-Agrees (record (remove_observer k m) { listeners = remove_object k e m.listeners })
        (record (remove_observer k (settled m)) { listeners = remove_object k e m.listeners })
        (remove_observer-queue k m ∙ h)
        (ap {A = Emitter} (λ b. record b { listeners = remove_object k e m.listeners })
          (sym (remove_observer-settled k m h))))
  | inr other ↦ rw other (quietly-Agrees m (settled m) h refl)
]
run-Agrees (Call.takes_off k event) m h =
    quietly-Agrees (off_listener k event m) (off_listener k event (settled m))
      (remove_observer-queue k m ∙ h) (off_listener-settled k event m h)
run-Agrees Call.takes_all_off m h =
    let ids = all_ids m.listeners ++ m.any_listeners in
    quietly-Agrees (off m) (off (settled m)) (remove_observers-queue ids m ∙ h) (
      ap {A = Emitter} (λ b. record b { listeners = []; any_listeners = [] })
        (sym (remove_observers-settled ids m h)))
run-Agrees (Call.emits event) m h = emit-Agrees event m h
run-Agrees (Call.sets_timer k block) m h =
    quietly-Agrees (set_timer k block m) (set_timer k block (settled m)) h
      (sym (update-settled k (λ l. record l { timeout = some block }) m (λ l. refl)))
run-Agrees (Call.starts_timer k) m h =
    quietly-Agrees (start_timer k m) (start_timer k (settled m)) h
      (sym (update-settled k (λ l. record l { timer_is_running = true }) m (λ l. refl)))
run-Agrees (Call.stops_timer k) m h =
    quietly-Agrees (stop_timer_of k m) (stop_timer_of k (settled m)) h
      (sym (update-settled k stop_timer m (λ l. refl)))
run-Agrees (Call.times_out l) m h = record {
  view = ap (λ b. (b, run_block l.id l.timeout)) (off_listener-settled l.id l.event m h);
  queue = remove_observer-queue l.id m ∙ h;
}
run-Agrees (Call.removes k) m h =
    quietly-Agrees (removed_from_center k m) (removed_from_center k (settled m)) h (
      ap (λ o. record (settled m) { observers = o })
        (removed-keep k m.observers ∙ sym (keep-removed k m.observers)))

run_all-Agrees :
    (cs : List Call) (m : Emitter)
    → m.has_user_queue ≡ true
    → Agrees (run_all cs m) (run_all cs (settled m))
unfolding run_all
run_all-Agrees [] m h = quietly-Agrees m (settled m) h refl
run_all-Agrees (c ∷ cs) m h =
    let first = run-Agrees c m h in
    then_do-Agrees (run c m) (run c (settled m)) (run_all cs) (run_all cs) first
      (run_all-Agrees cs (run c m).0 first.queue)

-- Whatever is done with it, and whenever its user queue removes the observers, an emitter with a user
-- queue makes the calls that an emitter which removes observers at once makes, and its listeners that
-- are not invalidated are the listeners of that one.
pub run_all-refines :
    (cs : List Call)
    → run_all cs (new_emitter false)
      ≡ (settled (run_all cs (new_emitter true)).0, (run_all cs (new_emitter true)).1)
run_all-refines cs = (run_all-Agrees cs (new_emitter true) refl).view
