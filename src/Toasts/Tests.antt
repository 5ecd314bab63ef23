-- ===== src/Toasts/Tests.antt =====
-- Four toasts, of which one is dropped and one dismissed.
use runway_the_game.Prelude.{refl, none, some, List, [], ◌∷◌, map, ◌≡◌}
use runway_the_game.Toasts.{
  ToastOptions, ToastEvent, shown, timed_out, no_toasts, handle, handle_all, show_toast,
  dismiss_toast, time_out,
}
use runway_the_game.Toasts.Shown.{IsTimed, handle_all-IsTimed, no_toasts-IsTimed}

abbrev plain : ToastOptions
plain = record { tone = none; duration = none }

abbrev staying : ToastOptions
staying = record { tone = none; duration = some 0 }

abbrev toasts : List ToastEvent
toasts = shown "a" plain ∷ shown "b" staying ∷ shown "c" plain ∷ shown "d" plain ∷ timed_out 3 ∷ []

on_screen : map (λ i. i.id) (handle_all toasts no_toasts).items ≡ 2 ∷ 4 ∷ []
unfolding handle show_toast dismiss_toast time_out
on_screen = refl

handle_all-IsTimed_example : IsTimed (handle_all toasts no_toasts)
handle_all-IsTimed_example = handle_all-IsTimed toasts no_toasts no_toasts-IsTimed
