-- ===== src/Policy/Pager.antt =====
-- src/logic/diag_mode.cpp: the pages of the diagnostic mode.
use bustaferl.Prelude.{
  ℕ, zero, suc, ◌+◌, ◌%◌, ◌<◌, ◌≡◌, Bool, true, false, List, [], ◌∷◌, arith, leb, ◌||◌,
  if◌then◌else◌, replicate,
}
use bustaferl.Button.{ButtonPress, short, long, double}

abbrev pub diag_page_count : ℕ
diag_page_count = 4

pub data DiagAction : Type 0 where
  show_page exit : DiagAction

pub record DiagStep : Type 0 where
  pub action : DiagAction
  pub page : ℕ

abbrev is_long : ButtonPress → Bool
is_long long = true
is_long _ = false

abbrev is_advance : ButtonPress → Bool
is_advance short = true
is_advance double = true
is_advance _ = false

unfoldable pub diag_next : ℕ → ButtonPress → Bool → DiagStep
diag_next current_page press timed_out =
    if timed_out || is_long press
    then record { action = exit; page = current_page }
    else if is_advance press
    then record {
      action = show_page;
      page = if leb diag_page_count (current_page + 1) then 0 else current_page + 1;
    }
    else record { action = show_page; page = current_page }

-- A session: the verdicts that ended the waits, each with the time-out's flag. It ends at an exit.
pub page_after : ℕ → List (ButtonPress × Bool) → DiagStep
page_after page [] = record { action = show_page; page = page }
page_after page ((press, timed_out) ∷ ps) =
    let step = diag_next page press timed_out in
    let rest = page_after step.page ps in elim step.action [ exit ↦ step | show_page ↦ rest ]

-- However the user presses, the page shown is one of the four.
pub page_after-lt :
    (page : ℕ) (ps : List (ButtonPress × Bool))
    → page < diag_page_count
    → (page_after page ps).page < diag_page_count
unfolding page_after diag_next
page_after-lt page [] h = h
page_after-lt page ((press, timed_out) ∷ ps) h =
    ground (arith, page_after-lt (diag_next page press timed_out).page ps)

-- Paging is cyclic: `n` presses that advance, with no time-out, show the page n places on, around the
-- four pages.
pub page_after-replicate :
    (n page : ℕ)
    → page < diag_page_count
    → page_after page (replicate n (short, false))
      ≡ record { action = show_page; page = (page + n) % diag_page_count }
unfolding page_after diag_next
page_after-replicate zero page h = ground arith
page_after-replicate (suc n) page h =
    ground (arith, page_after-replicate n (diag_next page short false).page)
