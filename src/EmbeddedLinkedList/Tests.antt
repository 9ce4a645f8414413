-- ===== src/EmbeddedLinkedList/Tests.antt =====
-- Runs of an `EmbeddedLinkedList` (rct/EmbeddedLinkedList.h).
use rct.Prelude.{ℕ, ◌≤◌, ◌≡◌, refl, List, [], ◌∷◌, some, count, ◌==◌, if◌then◌else◌, arith}
use rct.EmbeddedLinkedList.{Chain, contains}
use rct.EmbeddedLinkedList.Linked.{Repr}
use rct.EmbeddedLinkedList.Walk.{member, contains-member}
use rct.EmbeddedLinkedList.Spec.{
  Operation, do_insert, do_append, do_prepend, do_remove, do_move_to_end, do_move_to_front,
  do_take_front, spec, is_new, behind, without,
}
use rct.EmbeddedLinkedList.Refines.{Ends, run_all, spec_all, run_all-Ends}

-- A list that was just made.
abbrev empty : Chain
empty = record { next = λ t. 0; prev = λ t. 0; front = 0; back = 0; size = 0 }

empty-Repr : Repr empty []
unfolding count
empty-Repr = record {
  links = tt;
  once = λ x. omega arith;
  at_front = refl;
  at_back = refl;
  sized = refl;
}

abbrev script : List Operation
script =
    do_append 4
    ∷ do_append 5
    ∷ do_prepend 3
    ∷ do_insert 9 4
    ∷ do_move_to_end 3
    ∷ do_take_front
    ∷ do_move_to_front 5
    ∷ do_remove 9
    ∷ []

script-spec : spec_all script [] ≡ some (5 ∷ 3 ∷ [])
unfolding spec_all spec is_new member behind without
script-spec = refl

run_all-Ends_example : Ends (run_all script empty) (5 ∷ 3 ∷ [])
run_all-Ends_example = run_all-Ends script empty [] (5 ∷ 3 ∷ []) script-spec empty-Repr

-- The nodes 7 and 8, linked.
abbrev pair : Chain
pair = record {
  next = λ t. if t == 7 then 8 else 0;
  prev = λ t. if t == 8 then 7 else 0;
  front = 7;
  back = 8;
  size = 2;
}

pair-once : (x : ℕ) → count x (7 ∷ 8 ∷ []) ≤ 1
unfolding count
pair-once x = ground arith

pair-Repr : Repr pair (7 ∷ 8 ∷ [])
pair-Repr = record {
  links = (omega arith, refl, refl, (omega arith, refl, refl, tt));
  once = pair-once;
  at_front = refl;
  at_back = refl;
  sized = refl;
}

contains-8 : contains 8 pair ≡ some (member 8 (7 ∷ 8 ∷ []))
contains-8 = contains-member 8 pair-Repr
