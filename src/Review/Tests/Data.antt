-- ===== src/Review/Tests/Data.antt =====
-- A server over a plan of two lines with one comment, and the same one with an obsolete proposal.
use planmaxx.Base.{none, some, true, false, [], ◌∷◌, ◌++◌}
use planmaxx.Base.Int.{pos}
use planmaxx.Base.Text.{Text, codes, newline}
use planmaxx.Session.Types.{
  Anchor, Thread, RevisionFeedback, Revision, SectionProposal, SectionProposalInput, Session,
  zero_anchor, empty_digest, kind_review, status_open, source_initial, source_turn,
}
use planmaxx.Review.Types.{Document, Server}
use planmaxx.Review.Mutate.{World}
use planmaxx.Review.Requests.{Json}
use planmaxx.Review.Iteration.Request.{Outside, Prepared}

abbrev pub plan_text : Text
plan_text = codes "# Plan" ++ newline ∷ codes "step one"

abbrev pub second_line : Anchor
second_line = record { start_line = pos 2; start_char = pos 0; end_line = pos 2; end_char = pos 0 }

abbrev pub comment : Thread
comment = record {
  id = codes "thread-1";
  revision_id = codes "rev-1";
  anchor = second_line;
  selected_text = [];
  kind = codes "decision";
  status = status_open;
  position = record { x = pos 720; y = pos 120 };
  messages =
      record { id = codes "msg-1"; author = codes "reviewer"; body = codes "why"; created_at = 5 }
      ∷ [];
}

abbrev pub revision : Revision
revision = record {
  id = codes "rev-1";
  commit_id = [];
  parent_id = [];
  source = source_initial;
  created_at = 1;
  plan = plan_text;
  anchor = zero_anchor;
  summary = codes "Initial plan";
  feedback = [];
}

abbrev pub review : Session
review = record {
  id = codes "review-1";
  plan = plan_text;
  plan_path = codes "plan.md";
  plan_format = codes "markdown";
  current_revision_id = codes "rev-1";
  revisions = revision ∷ [];
  pending_proposal = none;
  threads = comment ∷ [];
  side_answers = [];
  digest = empty_digest;
  next_thread_id = pos 1;
  next_side_answer_id = pos 0;
  next_proposal_id = pos 0;
  next_message = pos 1;
  next_revision = pos 1;
}

-- The feedback that a revision was made for, with one message.
abbrev given : Text → RevisionFeedback
given body = record {
  revision_id = [];
  thread_id = codes "thread-1";
  anchor = second_line;
  result_anchor = second_line;
  selected_text = [];
  kind = codes "decision";
  messages =
      record { id = codes "msg-1"; author = codes "reviewer"; body = body; created_at = 5 } ∷ [];
}

abbrev pub second_revision : Revision
second_revision = record {
  id = codes "rev-2";
  commit_id = [];
  parent_id = codes "rev-1";
  source = source_turn;
  created_at = 9;
  plan = plan_text;
  anchor = zero_anchor;
  summary = [];
  feedback = given (codes "why") ∷ [];
}

abbrev pub third_revision : Revision
third_revision = record second_revision {
  id = codes "rev-3";
  parent_id = codes "rev-2";
  feedback = given (codes "shorter") ∷ [];
}

-- The review with two more revisions.
abbrev pub longer_review : Session
longer_review = record review {
  current_revision_id = codes "rev-3";
  revisions = revision ∷ second_revision ∷ third_revision ∷ [];
  next_revision = pos 3;
}

abbrev pub old_proposal : SectionProposal
old_proposal = record {
  id = codes "proposal-1";
  kind = kind_review;
  parent_id = codes "rev-0";
  thread_id = [];
  anchor = second_line;
  applied_anchor = zero_anchor;
  applied_hunks = [];
  replacement_anchor = second_line;
  original_section = [];
  proposed_section = [];
  proposed_plan = plan_text;
  summary = codes "review";
  instruction = [];
  raw_response = [];
  included_thread_ids = [];
  consumed_side_answer_ids = [];
  review_digest = none;
  obsolete = true;
  created_at = 10;
}

abbrev pub document : Document
document = record {
  canonical_path = codes "plan.md";
  source_hash = plan_text;
  source_text = plan_text;
  plan_format = codes "markdown";
}

abbrev pub server : Server
server = record {
  session = review;
  finished = false;
  autosave_status = codes "active";
  autosave_generation = 0;
  autosave_document = document;
  agent = record {
    id = codes "codex";
    display_name = codes "Codex";
    context_mode = [];
    available = true;
    unavailable_reason = [];
  };
  iteration_operation = none;
  iteration_sequence = 0;
  done = [];
}

abbrev pub finished_server : Server
finished_server = record server {
  finished = true;
  done = record { session = review; canceled = false; abandoned = false } ∷ [];
}

abbrev pub old_server : Server
old_server = record server { session = record review { pending_proposal = some old_proposal } }

-- A proposal on the checked-out revision.
abbrev pub new_proposal : SectionProposal
new_proposal = record old_proposal { obsolete = false; parent_id = codes "rev-1" }

abbrev pub proposed_server : Server
proposed_server = record server { session = record review { pending_proposal = some new_proposal } }

-- Every save is written, the source file holds the plan, and the hash of a text is the text.
-- The copy of a session loses the counters that are not exported.
abbrev pub world : World
world = record {
  save = λ status d s. record { working = s; generation = 1; error = none };
  read_file = λ path. some plan_text;
  read_revision = λ id. none;
  canonical_path = λ path. path;
  source_hash = λ text. text;
  json_copy = λ s. record s { next_message = pos 0; next_revision = pos 0 };
  now = 20;
  frames = 1000;
}

-- Every body decodes to the same request.
abbrev pub json : Json
json = record {
  text_field = λ field body. some body;
  position = λ body. none;
  anchor = λ body. some second_line;
  edit = λ body. none;
  create = λ body. none;
  digest = λ body. some empty_digest;
}

abbrev pub outside : Outside
outside = record {
  fingerprint = λ threads answers. [];
  review_instruction = λ summary decisions answers refinement. refinement;
}

abbrev pub prepared : Prepared
prepared = record {
  request = record {
    revision_id = codes "rev-1";
    thread_id = codes "thread-1";
    plan = plan_text;
    anchor = second_line;
    replacement_anchor = second_line;
    root_applied_anchor = zero_anchor;
    selected_section = codes "step one";
    reviewer_instruction = codes "explain";
    included_thread_ids = codes "thread-1" ∷ [];
  };
  lifecycle = record { kind = []; review_digest = none; consumed_side_answer_ids = [] };
  base_revision_id = codes "rev-1";
  base_pending_proposal_id = [];
  base_feedback = [];
  previous_proposed_plan = [];
}

-- The agent replies on the comment.
abbrev pub answer : SectionProposalInput
answer = record {
  kind = [];
  thread_id = codes "thread-1";
  anchor = second_line;
  applied_anchor = zero_anchor;
  applied_hunks = [];
  replacement_anchor = zero_anchor;
  original_section = [];
  proposed_section = [];
  proposed_plan = [];
  summary = [];
  instruction = codes "explain";
  raw_response = [];
  included_thread_ids = [];
  consumed_side_answer_ids = [];
  review_digest = none;
  agent_reply = codes "because";
}
