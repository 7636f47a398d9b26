-- ===== src/Session/Tests/Data.antt =====
-- One review: a plan of three lines, an active, an addressed and a detached comment, an included
-- answer and a pending review proposal.
use planmaxx.Base.{ℕ, none, some, true, false, List, [], ◌∷◌, ◌++◌}
use planmaxx.Base.Int.{pos}
use planmaxx.Base.Text.{Text, codes, newline}
use planmaxx.Session.Types.{
  Anchor, Message, Thread, Revision, SideAnswer, SectionProposal, Session, zero_anchor,
  empty_digest, kind_decision, kind_review, status_open, status_resolved, status_stale,
  source_initial, source_turn,
}

abbrev pub plan_text : Text
plan_text = codes "# Plan" ++ newline ∷ codes "step one" ++ newline ∷ codes "step two"

abbrev pub next_text : Text
next_text =
    codes "# Plan"
    ++ newline ∷ codes "step zero"
    ++ newline ∷ codes "step one"
    ++ newline ∷ codes "step three"

abbrev pub lines : ℕ → ℕ → Anchor
lines a b = record { start_line = pos a; start_char = pos 0; end_line = pos b; end_char = pos 0 }

abbrev pub message : ℕ → Text → Message
message n id = record { id = id; author = codes "reviewer"; body = codes "please"; created_at = n }

abbrev pub comment : Text → ℕ → Text → Text → Thread
comment id line status message_id = record {
  id = id;
  revision_id = codes "rev-1";
  anchor = lines line line;
  selected_text = [];
  kind = kind_decision;
  status = status;
  position = record { x = pos 720; y = pos 120 };
  messages = message 5 message_id ∷ [];
}

abbrev pub first_revision : Revision
first_revision = record {
  id = codes "rev-1";
  commit_id = [];
  parent_id = [];
  source = source_initial;
  created_at = 1;
  plan = plan_text;
  anchor = zero_anchor;
  summary = codes "Initial plan";
  feedback = [];
}

abbrev pub second_revision : Revision
second_revision = record {
  id = codes "rev-2";
  commit_id = [];
  parent_id = codes "rev-1";
  source = source_turn;
  created_at = 9;
  plan = plan_text;
  anchor = zero_anchor;
  summary = [];
  feedback = [];
}

abbrev pub answer : SideAnswer
answer = record {
  id = codes "side-1";
  thread_id = codes "thread-1";
  question = codes "why";
  answer = codes "because";
  promoted = true;
  created_at = 6;
}

abbrev pub proposal : SectionProposal
proposal = record {
  id = codes "proposal-1";
  kind = kind_review;
  parent_id = codes "rev-2";
  thread_id = [];
  anchor = lines 1 3;
  applied_anchor = zero_anchor;
  applied_hunks = [];
  replacement_anchor = lines 1 3;
  original_section = [];
  proposed_section = [];
  proposed_plan = next_text;
  summary = codes "review";
  instruction = [];
  raw_response = [];
  included_thread_ids = codes "thread-1" ∷ [];
  consumed_side_answer_ids = codes "side-1" ∷ [];
  review_digest = none;
  obsolete = false;
  created_at = 10;
}

abbrev pub threads : List Thread
threads =
    comment (codes "thread-1") 2 status_open (codes "msg-1")
    ∷ comment (codes "thread-2") 3 status_resolved (codes "msg-2")
    ∷ comment (codes "thread-3") 9 status_stale (codes "msg-3")
    ∷ []

abbrev pub review : Session
review = record {
  id = codes "review-1";
  plan = plan_text;
  plan_path = codes "plan.md";
  plan_format = codes "markdown";
  current_revision_id = codes "rev-2";
  revisions = first_revision ∷ second_revision ∷ [];
  pending_proposal = some proposal;
  threads = threads;
  side_answers = answer ∷ [];
  digest = empty_digest;
  next_thread_id = pos 3;
  next_side_answer_id = pos 1;
  next_proposal_id = pos 1;
  next_message = pos 3;
  next_revision = pos 2;
}
