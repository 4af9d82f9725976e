-- ===== src/View/Tests.antt =====
-- The theorems on views, at a toplevel of 80 by 60 on output 2.
use wlc.Base.{ℕ, ◌≡◌, refl, true, false, some, List, [], ◌∷◌, arith}
use wlc.Chck.{unbounded}
use wlc.View.{
  StateBit, maximized, fullscreen, resizing, moving, activated, states_equal, View, ViewEvent,
  configured_toplevel, Strings, commit_state,
}
use wlc.View.Samples.{screen_size, plain, toplevel_view, no_callbacks}
use wlc.View.Settled.{listed, commit_state-settles}
use wlc.View.Commit.{commit_state-tells}

-- The same view, to be in fullscreen.
abbrev wide_view : View
wide_view = record toplevel_view {
  pending = record plain { state = record plain.state { is_fullscreen = true } };
}

abbrev code : StateBit → ℕ
code maximized = 1
code fullscreen = 2
code resizing = 3
code moving = 9
code activated = 4

commit_state-settles_example :
    ((commit_state unbounded code no_callbacks wide_view).commit ≡ wide_view.pending)
    × ((commit_state unbounded code no_callbacks wide_view).pending ≡ wide_view.pending)
    × (commit_state unbounded code no_callbacks (commit_state unbounded code no_callbacks wide_view)
        ≡ commit_state unbounded code no_callbacks wide_view)
commit_state-settles_example =
    commit_state-settles unbounded code no_callbacks wide_view (screen_size, 2) refl refl

abbrev strings : Strings
strings = record { cstrneq = λ a b. false; cstreq = λ a b. false; set = λ s. some s }

commit_state-tells_example :
    (rest : List ViewEvent) × ((commit_state unbounded code no_callbacks wide_view).events
      ≡ configured_toplevel screen_size (2 ∷ []) ∷ rest)
unfolding listed states_equal
commit_state-tells_example =
    commit_state-tells unbounded code (λ xs a e. ground (arith, e)) no_callbacks wide_view
      (screen_size, 2) refl refl refl refl
