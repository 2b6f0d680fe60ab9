-- ===== src/Emitter/Deferred.antt =====
-- An emitter of Source/ARTEventEmitter.m with a user queue removes its observers later. It refines the
-- emitter that removes them at once: `settled` is the view that forgets the observers which are
-- invalidated and wait for their removal.
use ably_cocoa.Base.{
  ℕ, suc, ◌≡◌, refl, sym, ◌∙◌, ap, Bool, true, false, ◌&&◌, ◌||◌, not, Option, none, some, List, [],
  ◌∷◌, ◌++◌, Text, ltb, ◌==◌, is_some, Bool-cases, inl, inr, keep, arith,
}
use ably_cocoa.Emitter.{
  Listener, Emitter, called, Result, stop_timer, invalidate, update, without, remove_observer,
  remove_observers, forgotten, counted, receive, receive_once, receive_on, then_do,
}

abbrev pub live : Listener → Bool
live l = not l.invalidated

abbrev pub settled : Emitter → Emitter
settled m = record m { observers = keep live m.observers; has_user_queue = false }

abbrev pub settle : Result → Result
settle (m, out) = (settled m, out)

keep-update :
    (k : ℕ) (f : Listener → Listener) (ls : List Listener)
    → ((l : Listener) → (f l).invalidated ≡ l.invalidated)
    → keep live (update k f ls) ≡ update k f (keep live ls)
unfolding update
keep-update k f [] same = refl
keep-update k f (l ∷ ls) same = ground (arith, same l, keep-update k f ls same)

keep-invalidate :
    (k : ℕ) (ls : List Listener) → keep live (update k invalidate ls) ≡ without k (keep live ls)
unfolding update
keep-invalidate k [] = refl
keep-invalidate k (l ∷ ls) = ground (arith, keep-invalidate k ls)

pub keep-removed :
    (k : ℕ) (ls : List Listener)
    → keep live (keep (λ l. not (l.id == k && l.invalidated)) ls) ≡ keep live ls
keep-removed k [] = refl
keep-removed k (l ∷ ls) = ground (arith, keep-removed k ls)

pub removed-keep :
    (k : ℕ) (ls : List Listener)
    → keep (λ l. not (l.id == k && l.invalidated)) (keep live ls) ≡ keep live ls
removed-keep k [] = refl
removed-keep k (l ∷ ls) = ground (arith, removed-keep k ls)

pub keep-append :
    (ls : List Listener) (l : Listener)
    → l.invalidated ≡ false
    → keep live (ls ++ l ∷ []) ≡ keep live ls ++ l ∷ []
keep-append [] l h = rw h
keep-append (j ∷ ls) l h = ground (arith, keep-append ls l h)

pub remove_observer-settled :
    (k : ℕ) (m : Emitter)
    → m.has_user_queue ≡ true
    → settled (remove_observer k m) ≡ remove_observer k (settled m)
unfolding remove_observer
remove_observer-settled k m h =
    rw h (ap (λ o. record (settled m) { observers = o }) (keep-invalidate k m.observers))

pub remove_observer-queue :
    (k : ℕ) (m : Emitter) → (remove_observer k m).has_user_queue ≡ m.has_user_queue
unfolding remove_observer
remove_observer-queue k m = refl

pub remove_observers-settled :
    (ks : List ℕ) (m : Emitter)
    → m.has_user_queue ≡ true
    → settled (remove_observers ks m) ≡ remove_observers ks (settled m)
remove_observers-settled [] m h = refl
remove_observers-settled (k ∷ ks) m h =
    remove_observers-settled ks (remove_observer k m) (remove_observer-queue k m ∙ h)
    ∙ ap (remove_observers ks) (remove_observer-settled k m h)

pub update-settled :
    (k : ℕ) (f : Listener → Listener) (m : Emitter)
    → ((l : Listener) → (f l).invalidated ≡ l.invalidated)
    → settled (record m { observers = update k f m.observers })
      ≡ record (settled m) { observers = update k f (keep live m.observers) }
update-settled k f m same =
    ap (λ o. record (settled m) { observers = o }) (keep-update k f m.observers same)

-- The two views agree after a call, and the emitter still has its user queue.
pub record Agrees (r a : Result) : Type 0 where
  pub view : a ≡ settle r
  pub queue : r.0.has_user_queue ≡ true

pub quietly-Agrees :
    (m a : Emitter) → m.has_user_queue ≡ true → a ≡ settled m → Agrees (m, []) (a, [])
quietly-Agrees m a h e = record { view = λ i. (e i, []); queue = h }

pub then_do-Agrees :
    (r a : Result) (f g : Emitter → Result)
    → Agrees r a
    → Agrees (f r.0) (g (settled r.0))
    → Agrees (then_do r f) (then_do a g)
then_do-Agrees r a f g x y = record {
  view = ap (λ b. then_do b g) x.view ∙ ap (λ b. (b.0, r.1 ++ b.1)) y.view;
  queue = y.queue;
}

forgotten-settled :
    (k : ℕ) (event : Option Text) (m : Emitter)
    → settled (forgotten k event m) ≡ forgotten k event (settled m)
forgotten-settled k none m = refl
forgotten-settled k (some e) m = refl

forgotten-queue :
    (k : ℕ) (event : Option Text) (m : Emitter)
    → (forgotten k event m).has_user_queue ≡ m.has_user_queue
forgotten-queue k none m = refl
forgotten-queue k (some e) m = refl

counted-settled : (k : ℕ) (m : Emitter) → settled (counted k m) ≡ counted k (settled m)
counted-settled k m = update-settled k (λ l. record l { count = suc l.count }) m (λ l. refl)

receive_once-Agrees :
    (l : Listener) (m : Emitter)
    → m.has_user_queue ≡ true
    → Agrees (receive_once l m) (receive_once l (settled m))
receive_once-Agrees l m h = elim (Bool-cases (ltb 0 l.count)) [
  | inl again ↦
      rw again (
        quietly-Agrees (counted l.id m) (counted l.id (settled m)) h (sym (counted-settled l.id m)))
  | inr first ↦
      let before = counted l.id m in
      let removed = remove_observer l.id before in
      rw first (record {
        view =
            ap (λ b. (b, called l.id l.callback ∷ []))
              (ap (λ b. forgotten l.id l.event (remove_observer l.id b))
                  (sym (counted-settled l.id m))
                ∙ ap (forgotten l.id l.event) (sym (remove_observer-settled l.id before h))
                ∙ sym (forgotten-settled l.id l.event removed));
        queue = forgotten-queue l.id l.event removed ∙ remove_observer-queue l.id before ∙ h;
      })
]

receive_on-Agrees :
    (l : Listener) (m : Emitter)
    → m.has_user_queue ≡ true
    → Agrees (receive_on l m) (receive_on l (settled m))
receive_on-Agrees l m h = record {
  view =
      ap (λ b. (b, called l.id l.callback ∷ []))
        (sym (update-settled l.id stop_timer m (λ j. refl)));
  queue = h;
}

pub receive-Agrees :
    (l : Listener) (m : Emitter)
    → m.has_user_queue ≡ true
    → Agrees (receive l m) (receive l (settled m))
unfolding receive
receive-Agrees l m h =
    elim (Bool-cases (l.invalidated || is_some l.timeout && not l.timer_is_running)) [
      | inl deaf ↦ rw deaf (quietly-Agrees m (settled m) h refl)
      | inr hears ↦ rw hears (elim (Bool-cases l.is_once) [
        | inl once ↦ rw once (receive_once-Agrees l m h)
        | inr on ↦ rw on (receive_on-Agrees l m h)
      ])
    ]
