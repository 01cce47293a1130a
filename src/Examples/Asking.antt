-- ===== src/Examples/Asking.antt =====
-- Questions on sample data.
use devteam.Prelude.{List, [], arith, codes, none, refl, ◌≡◌, ◌∷◌}
use devteam.Feature.Questions.{
  Question, pending, answered, found, refused, conflict, as_answered, get_question, answer_question,
  assume_question,
}
use devteam.Feature.Asked.{answer, execute, IsStore, execute-IsStore}
use devteam.Feature.Answered.{works, answer_question-once}

abbrev which_users : Question
which_users = record {
  id = 1;
  feature_id = "login-1";
  phase = "ideation";
  role = "product";
  stage_id = "1.1";
  question = codes "Which users?";
  type = "clarification";
  options = [];
  answer = none;
  assumption = none;
  status = pending;
  created_at = 5;
  answered_at = none;
}

abbrev asked : List Question
asked = which_users ∷ []

asked-IsStore : IsStore asked
asked-IsStore = record { ascending = (ground arith, tt); consistent = ((refl, refl, refl), tt) }

execute-IsStore_example : IsStore (execute works (answer 7 1 "all") asked).0
execute-IsStore_example = execute-IsStore works (answer 7 1 "all") asked asked-IsStore

answer_question-once_example :
    let (after, r) = answer_question works 7 1 "all" asked in
    (r ≡ found (as_answered 7 "all" which_users))
    × (get_question works 1 after ≡ r)
    × (answer_question works 8 1 "none" after ≡ (after, refused (conflict 1 answered)))
    × (assume_question works 8 1 "none" after ≡ (after, refused (conflict 1 answered)))
answer_question-once_example = answer_question-once 7 8 1 "all" "none" asked which_users refl refl
