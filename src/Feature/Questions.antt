-- ===== src/Feature/Questions.antt =====
-- internal/feature/question.go: the questions of a feature, and the store that keeps them in a
-- file. An id is its number, of which the text is "Q-%03d"; the ids of the store are all made by
-- nextQuestionID, and Sscanf gives the number back. The operations work on the questions in the
-- file of one feature; Disk says whether the file can be read and written.
use devteam.Prelude.{
  Bool, List, Option, String, Text, [], change, false, find, keep, ltb, none, not, some, true, ℕ,
  ◌+◌, ◌∷◌, ◌++◌, ◌==◌, if◌then◌else◌, nat_eq, string_eq, text_eq,
}

pub data QuestionStatus : Type 0 where
  pending answered assumed : QuestionStatus

abbrev pub status_name : QuestionStatus → String
status_name pending = "pending"
status_name answered = "answered"
status_name assumed = "assumed"

abbrev pub is_pending : QuestionStatus → Bool
is_pending pending = true
is_pending _ = false

-- The texts whose length is tested are lists of bytes.
pub record Question : Type 0 where
  pub id : ℕ
  pub feature_id : String
  pub phase : String
  pub role : String
  pub stage_id : String
  pub question : Text
  pub type : String
  pub options : List Text
  pub answer : Option String
  pub assumption : Option String
  pub status : QuestionStatus
  pub created_at : ℕ
  pub answered_at : Option ℕ

pub record Disk : Type 0 where
  pub readable : Bool
  pub writable : Bool

pub data QuestionError : Type 0 where
  load_failed save_failed : QuestionError
  not_found : (id : ℕ) → QuestionError
  conflict : (id : ℕ) (status : QuestionStatus) → QuestionError

pub data Reply : Type 0 where
  found : Question → Reply
  refused : QuestionError → Reply

-- The loop of nextQuestionID from the maximum so far.
abbrev pub max_num : ℕ → List Question → ℕ
max_num m [] = m
max_num m (q ∷ qs) = max_num (if ltb m q.id then q.id else m) qs

unfoldable pub next_question_id : List Question → ℕ
next_question_id qs = max_num 0 qs + 1

abbrev pub as_created : ℕ → String → ℕ → Question → Question
as_created now feature_id id q = record q {
  id = id;
  feature_id = feature_id;
  status = pending;
  created_at = now;
  answer = none;
  assumption = none;
  answered_at = none;
}

unfoldable pub create_question :
    Disk → ℕ → String → Question → List Question → List Question × Reply
create_question disk now feature_id q qs =
    let made = as_created now feature_id (next_question_id qs) q in
    if not disk.readable
    then (qs, refused load_failed)
    else if not disk.writable
    then (qs, refused save_failed)
    else (qs ++ made ∷ [], found made)

abbrev pub has_id : ℕ → Question → Bool
has_id id q = q.id == id

unfoldable pub get_question : Disk → ℕ → List Question → Reply
get_question disk id qs =
    if not disk.readable
    then refused load_failed
    else elim (find (has_id id) qs) [ none ↦ refused (not_found id) | some q ↦ found q ]

unfoldable pub list_pending_questions : List Question → List Question
list_pending_questions qs = keep (λ q. is_pending q.status) qs

-- The change of the first question of that id, which the store saves.
abbrev pub change_first : ℕ → (Question → Question) → List Question → List Question
change_first id change [] = []
change_first id change (q ∷ qs) =
    if q.id == id then change q ∷ qs else q ∷ change_first id change qs

-- What AnswerQuestion and AssumeQuestion have in common, behind the search.
abbrev pub resolve_found :
    Disk → ℕ → (Question → Question) → List Question → Option Question → List Question × Reply
resolve_found disk id change qs none = (qs, refused (not_found id))
resolve_found disk id change qs (some q) =
    if not (is_pending q.status)
    then (qs, refused (conflict id q.status))
    else if not disk.writable
    then (qs, refused save_failed)
    else (change_first id change qs, found (change q))

abbrev pub resolve : Disk → ℕ → (Question → Question) → List Question → List Question × Reply
resolve disk id change qs =
    if not disk.readable
    then (qs, refused load_failed)
    else resolve_found disk id change qs (find (has_id id) qs)

abbrev pub as_answered : ℕ → String → Question → Question
as_answered now text q = record q { answer = some text; status = answered; answered_at = some now }

abbrev pub as_assumed : ℕ → String → Question → Question
as_assumed now text q = record q {
  assumption = some text;
  status = assumed;
  answered_at = some now;
}

unfoldable pub answer_question : Disk → ℕ → ℕ → String → List Question → List Question × Reply
answer_question disk now id text qs = resolve disk id (as_answered now text) qs

unfoldable pub assume_question : Disk → ℕ → ℕ → String → List Question → List Question × Reply
assume_question disk now id text qs = resolve disk id (as_assumed now text) qs

abbrev pub count_pending : ℕ → List Question → ℕ
count_pending n [] = n
count_pending n (q ∷ qs) = count_pending (if is_pending q.status then n + 1 else n) qs

unfoldable pub pending_count : List Question → ℕ
pending_count qs = count_pending 0 qs
