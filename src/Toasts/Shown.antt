-- ===== src/Toasts/Shown.antt =====
-- What frontend/src/design-system/overlays/toastStore.ts keeps: few toasts, each with its timer.
use runway_the_game.Prelude.{
  ℕ, suc, ◌≤◌, ◌<◌, ltb, eqb, ◌≡◌, refl, ◌∙◌, inl, inr, Bool, true, false, not, List, [], ◌∷◌, ◌++◌,
  filter, any, length, length-append, length-filter, take, drop, All, All-imp, All-imp₂, All-append,
  All-kept, arith, Bool-cases, if◌then◌else◌,
}
use runway_the_game.Toasts.{
  ToastItem, ToastStore, no_toasts, cancel, cancel_all, is_toast, dismiss_toast, new_item, over,
  set_timer, show_toast, clear_toasts, time_out, ToastEvent, shown, dismissed, timed_out, cleared,
  handle, handle_all,
}

abbrev pub runs : ℕ → List ℕ → Bool
runs id timers = any (λ t. eqb t id) timers

-- No id occurs twice, as each is less than those after it.
abbrev pub Rising : List ToastItem → Type 0
Rising [] = Unit
Rising (i ∷ items) = All (λ j. i.id < j.id) items × Rising items

-- A toast that does not stay has a timer that runs.
abbrev pub Timed : List ℕ → ToastItem → Type 0
Timed timers i = 0 < i.duration → runs i.id timers ≡ true

pub record IsTimed (s : ToastStore) : Type 0 where
  pub few : length s.items ≤ 3
  pub rising : Rising s.items
  pub fresh : All (λ i. i.id < s.next_id) s.items
  pub timed : All (Timed s.timers) s.items

runs-cancel :
    (id j : ℕ) (timers : List ℕ) → eqb j id ≡ false → runs j (cancel id timers) ≡ runs j timers
runs-cancel id j [] h = refl
runs-cancel id j (t ∷ timers) h = ground (arith, h, runs-cancel id j timers h)

runs-append : (j : ℕ) (xs ys : List ℕ) → runs j xs ≡ true → runs j (xs ++ ys) ≡ true
runs-append j [] ys h = absurd (ground (arith, h))
runs-append j (x ∷ xs) ys h = ground (arith, h, runs-append j xs ys)

runs-last : (j : ℕ) (xs : List ℕ) → runs j (xs ++ j ∷ []) ≡ true
runs-last j [] = ground arith
runs-last j (x ∷ xs) = ground (arith, runs-last j xs)

Timed-cancel :
    (id : ℕ) (timers : List ℕ) (i : ToastItem)
    → eqb i.id id ≡ false
    → Timed timers i
    → Timed (cancel id timers) i
Timed-cancel id timers i h k = λ p. runs-cancel id i.id timers h ∙ k p

-- A toast that is not there, and the others of one that is.
Timed-none :
    (id : ℕ) (timers : List ℕ) (items : List ToastItem)
    → any (is_toast id) items ≡ false
    → All (Timed timers) items
    → All (Timed (cancel id timers)) items
Timed-none id timers [] h k = tt
Timed-none id timers (i ∷ items) h k = (
  Timed-cancel id timers i (ground (arith, h)) k.0,
  Timed-none id timers items (ground (arith, h)) k.1,
)

Timed-filter :
    (id : ℕ) (timers : List ℕ) (items : List ToastItem)
    → All (Timed timers) items
    → All (Timed (cancel id timers)) (filter (λ i. not (is_toast id i)) items)
Timed-filter id timers [] k = tt
Timed-filter id timers (i ∷ items) k = elim (Bool-cases (eqb i.id id)) [
  | inl e ↦ rw e (Timed-filter id timers items k.1)
  | inr e ↦ rw e (Timed-cancel id timers i e k.0, Timed-filter id timers items k.1)
]

Rising-filter :
    (p : ToastItem → Bool) (items : List ToastItem) → Rising items → Rising (filter p items)
Rising-filter p [] h = tt
Rising-filter p (i ∷ items) h = elim (Bool-cases (p i)) [
  | inl e ↦ rw e (All-kept (λ j. i.id < j.id) p items h.0, Rising-filter p items h.1)
  | inr e ↦ rw e (Rising-filter p items h.1)
]

Rising-snoc :
    (items : List ToastItem) (x : ToastItem)
    → All (λ i. i.id < x.id) items
    → Rising items
    → Rising (items ++ x ∷ [])
Rising-snoc [] x h r = (tt, tt)
Rising-snoc (i ∷ items) x h r =
    (All-append (λ j. i.id < j.id) items (x ∷ []) r.0 (h.0, tt), Rising-snoc items x h.1 r.1)

if-IsTimed :
    (b : Bool) (s t : ToastStore)
    → (b ≡ true → IsTimed s)
    → (b ≡ false → IsTimed t)
    → IsTimed (if b then s else t)
if-IsTimed true s t h k = h refl
if-IsTimed false s t h k = k refl

dismiss_toast-IsTimed : (id : ℕ) (s : ToastStore) → IsTimed s → IsTimed (dismiss_toast id s)
unfolding dismiss_toast
dismiss_toast-IsTimed id s h =
    if-IsTimed (not (any (is_toast id) s.items)) _ _
      (λ e. record {
        few = h.few;
        rising = h.rising;
        fresh = h.fresh;
        timed = Timed-none id s.timers s.items (ground (arith, e)) h.timed;
      })
      (λ e. record {
        few = omega (arith, length-filter (λ i. not (is_toast id i)) s.items, h.few);
        rising = Rising-filter (λ i. not (is_toast id i)) s.items h.rising;
        fresh = All-kept (λ i. i.id < s.next_id) (λ i. not (is_toast id i)) s.items h.fresh;
        timed = Timed-filter id s.timers s.items h.timed;
      })

-- A new toast after at most two.
abbrev after : List ToastItem → ToastItem → List ℕ → ℕ → ToastStore
after items x timers emitted = record {
  items = items ++ x ∷ [];
  next_id = suc x.id;
  timers = set_timer x timers;
  emitted = emitted;
}

set_timer-Timed :
    (x : ToastItem) (timers : List ℕ) (i : ToastItem)
    → Timed timers i
    → Timed (set_timer x timers) i
set_timer-Timed x timers i h = λ p. elim (Bool-cases (ltb 0 x.duration)) [
  | inl e ↦ rw e (runs-append i.id timers (x.id ∷ []) (h p))
  | inr e ↦ rw e (h p)
]

set_timer-own : (x : ToastItem) (timers : List ℕ) → Timed (set_timer x timers) x
set_timer-own x timers = λ p. elim (Bool-cases (ltb 0 x.duration)) [
  | inl e ↦ rw e (runs-last x.id timers)
  | inr e ↦ absurd (ground (arith, e, p))
]

after-IsTimed :
    (items : List ToastItem) (x : ToastItem) (timers : List ℕ) (emitted : ℕ)
    → length items ≤ 2
    → Rising items
    → All (λ i. i.id < x.id) items
    → All (Timed timers) items
    → IsTimed (after items x timers emitted)
after-IsTimed items x timers emitted few rising fresh timed = record {
  few = omega (arith, few, length-append items (x ∷ []));
  rising = Rising-snoc items x fresh rising;
  fresh =
      All-append (λ i. i.id < suc x.id) items (x ∷ [])
        (All-imp items (λ i h. omega (arith, h)) fresh) (omega arith, tt);
  timed =
      All-append (Timed (set_timer x timers)) items (x ∷ [])
        (All-imp items (set_timer-Timed x timers) timed) (set_timer-own x timers, tt);
}

-- The store that showToast leaves, from the toasts that it had.
abbrev showing : List ToastItem → ToastItem → List ℕ → ℕ → ToastStore
showing items x timers emitted =
    let next = items ++ x ∷ [] in
    let dropped = take (over next) next in
    record {
      items = drop (length dropped) next;
      next_id = suc x.id;
      timers = set_timer x (cancel_all dropped timers);
      emitted = emitted;
    }

showing-IsTimed :
    (items : List ToastItem) (x : ToastItem) (timers : List ℕ) (emitted : ℕ)
    → length items ≤ 3
    → Rising items
    → All (λ i. i.id < x.id) items
    → All (Timed timers) items
    → IsTimed (showing items x timers emitted)
showing-IsTimed [] x timers emitted few rising fresh timed =
    after-IsTimed [] x timers emitted (omega arith) tt tt tt
showing-IsTimed (a ∷ items) x timers emitted few rising fresh timed =
    let long = length-append (a ∷ items) (x ∷ []) in
    elim (Bool-cases (ltb 3 (length (a ∷ items ++ x ∷ [])))) [
      | inl e ↦
          let one : over (a ∷ items ++ x ∷ []) ≡ 1 = ground (arith, e, few, long) in
          rw one (
            after-IsTimed items x (cancel a.id timers) emitted (ground (arith, few)) rising.1
              fresh.1
              (All-imp₂ items (λ i lt t. Timed-cancel a.id timers i (ground (arith, lt)) t) rising.0
                timed.1))
      | inr e ↦
          let none_over : over (a ∷ items ++ x ∷ []) ≡ 0 = ground (arith, e) in
          rw none_over (
            after-IsTimed (a ∷ items) x timers emitted (ground (arith, e, long)) rising fresh timed)
    ]

handle-IsTimed : (e : ToastEvent) (s : ToastStore) → IsTimed s → IsTimed (handle e s)
unfolding handle show_toast clear_toasts time_out
handle-IsTimed (shown m o) s h =
    let t =
      showing-IsTimed s.items (new_item s.next_id m o) s.timers s.emitted h.few h.rising h.fresh
        h.timed in
    record { few = t.few; rising = t.rising; fresh = t.fresh; timed = t.timed }
handle-IsTimed (dismissed id) s h = dismiss_toast-IsTimed id s h
handle-IsTimed (timed_out id) s h =
    if-IsTimed (any (eqb id) s.timers) (dismiss_toast id s) s (λ e. dismiss_toast-IsTimed id s h)
      (λ e. h)
handle-IsTimed cleared s h = record { few = omega arith; rising = tt; fresh = tt; timed = tt }

-- After any events at most three toasts are on screen, with ids that rise and are below the next one,
-- and each toast that does not stay has a timer that runs.
pub handle_all-IsTimed :
    (es : List ToastEvent) (s : ToastStore) → IsTimed s → IsTimed (handle_all es s)
handle_all-IsTimed [] s h = h
handle_all-IsTimed (e ∷ es) s h = handle_all-IsTimed es (handle e s) (handle-IsTimed e s h)

pub no_toasts-IsTimed : IsTimed no_toasts
no_toasts-IsTimed = record { few = omega arith; rising = tt; fresh = tt; timed = tt }
