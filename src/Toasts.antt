-- ===== src/Toasts.antt =====
-- The toasts on screen: frontend/src/design-system/overlays/toastStore.ts. `timers` are the ids whose
-- timer runs, and `emitted` counts the calls of the listeners.
pub mod Shown
mod Tests
use runway_the_game.Prelude.{
  ℕ, suc, ◌+◌, ◌-◌, ltb, String, Bool, true, false, not, ◌||◌, Option, List, [], ◌∷◌, ◌++◌, map,
  filter, any, length, take, drop, or_default, eqb, if◌then◌else◌,
}

pub data ToastTone : Type 0 where
  gold rust moss crimson neutral : ToastTone

pub record ToastOptions : Type 0 where
  pub tone : Option ToastTone
  pub duration : Option ℕ

pub record ToastItem : Type 0 where
  pub id : ℕ
  pub tone : ToastTone
  pub message : String
  pub duration : ℕ

pub record ToastStore : Type 0 where
  pub items : List ToastItem
  pub next_id : ℕ
  pub timers : List ℕ
  pub emitted : ℕ

abbrev pub default_toast_duration : ℕ
default_toast_duration = 4000

abbrev pub max_visible_toasts : ℕ
max_visible_toasts = 3

abbrev pub no_toasts : ToastStore
no_toasts = record { items = []; next_id = 1; timers = []; emitted = 0 }

abbrev pub emit : ToastStore → ToastStore
emit s = record s { emitted = suc s.emitted }

-- `timers.delete(id)`, after its timer is cancelled.
abbrev pub cancel : ℕ → List ℕ → List ℕ
cancel id timers = filter (λ t. not (eqb t id)) timers

abbrev pub cancel_all : List ToastItem → List ℕ → List ℕ
cancel_all [] timers = timers
cancel_all (old ∷ dropped) timers = cancel_all dropped (cancel old.id timers)

abbrev pub is_toast : ℕ → ToastItem → Bool
is_toast id item = eqb item.id id

unfoldable pub dismiss_toast : ℕ → ToastStore → ToastStore
dismiss_toast id s =
    let t = record s { timers = cancel id s.timers } in
    if not (any (is_toast id) s.items)
    then t
    else emit (record t { items = filter (λ i. not (is_toast id i)) s.items })

abbrev pub new_item : ℕ → String → ToastOptions → ToastItem
new_item id message options = record {
  id = id;
  tone = or_default options.tone neutral;
  message = message;
  duration = or_default options.duration default_toast_duration;
}

abbrev pub over : List ToastItem → ℕ
over next = if ltb max_visible_toasts (length next) then length next - max_visible_toasts else 0

-- `timers.set(id, ...)`, for a toast that does not stay.
abbrev pub set_timer : ToastItem → List ℕ → List ℕ
set_timer item timers = if ltb 0 item.duration then timers ++ item.id ∷ [] else timers

unfoldable pub show_toast : String → ToastOptions → ToastStore → ToastStore × ℕ
show_toast message options s =
    let item = new_item s.next_id message options in
    let next = s.items ++ item ∷ [] in
    let dropped = take (over next) next in
    (
      emit (record {
        items = drop (length dropped) next;
        next_id = suc s.next_id;
        timers = set_timer item (cancel_all dropped s.timers);
        emitted = s.emitted;
      }),
      s.next_id,
    )

unfoldable pub clear_toasts : ToastStore → ToastStore
clear_toasts s = emit (record s { items = []; timers = [] })

-- A timer that runs out dismisses its toast.
unfoldable pub time_out : ℕ → ToastStore → ToastStore
unfolding dismiss_toast
time_out id s = if any (eqb id) s.timers then dismiss_toast id s else s

pub data ToastEvent : Type 0 where
  shown : String → ToastOptions → ToastEvent
  dismissed timed_out : ℕ → ToastEvent
  cleared : ToastEvent

abbrev pub handle : ToastEvent → ToastStore → ToastStore
unfolding show_toast dismiss_toast clear_toasts time_out
handle (shown message options) s = (show_toast message options s).0
handle (dismissed id) s = dismiss_toast id s
handle (timed_out id) s = time_out id s
handle cleared s = clear_toasts s

abbrev pub handle_all : List ToastEvent → ToastStore → ToastStore
handle_all [] s = s
handle_all (e ∷ es) s = handle_all es (handle e s)
