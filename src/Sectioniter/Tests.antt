-- ===== src/Sectioniter/Tests.antt =====
-- A response of two hunks, and the instance of the theorem on it.
use planmaxx.Base.{some, none, [], ◌∷◌, ◌++◌}
use planmaxx.Base.Int.{pos}
use planmaxx.Base.Text.{Text, codes, newline}
use planmaxx.Patches.Hunks.{Resolved}
use planmaxx.Session.Types.{zero_anchor, SectionProposalInput}
use planmaxx.Sectioniter.Protocol.{Xml, ReplacementWire, at_end}
use planmaxx.Sectioniter.Proposal.{IterationRequest, patch_input}

abbrev plan : Text
plan = codes "a" ++ newline ∷ codes "b" ++ newline ∷ codes "c"

abbrev first_line : ReplacementWire
first_line = record {
  target = codes "lines";
  start = codes "1";
  end = codes "1";
  before = [];
  expected = codes "a";
  after = [];
  content = some (codes "xyz");
}

abbrev third_line : ReplacementWire
third_line = record {
  target = codes "lines";
  start = codes "3";
  end = codes "3";
  before = [];
  expected = codes "c";
  after = [];
  content = some (codes "w");
}

-- Every response replaces the first and the third line.
abbrev xml : Xml
xml = record {
  root_name = λ raw. some (codes "planmaxx_proposal", at_end);
  reply = λ raw. none;
  proposal = λ raw. some (
    record {
      local_name = codes "planmaxx_proposal";
      version = codes "1";
      revision = codes "rev-1";
      summary = codes "shorter";
      replacements = first_line ∷ third_line ∷ [];
    },
    at_end,
  );
}

abbrev request : IterationRequest
request = record {
  revision_id = codes "rev-1";
  thread_id = [];
  plan = plan;
  anchor = zero_anchor;
  replacement_anchor = zero_anchor;
  root_applied_anchor = zero_anchor;
  selected_section = codes "a";
  reviewer_instruction = codes "shorten";
  included_thread_ids = [];
}

abbrev raw : Text
raw = codes "<planmaxx_proposal/>"

abbrev first_hunk : Resolved
first_hunk = record {
  hunk = record {
    before = [];
    expected = codes "a";
    after = [];
    content = codes "xyz";
    target = codes "lines";
    start_hint = pos 1;
    end_hint = pos 1;
  };
  start_offset = 0;
  end_offset = 1;
  start_line = 1;
  start_char = 0;
  end_line = 1;
  end_char = 1;
}

abbrev third_hunk : Resolved
third_hunk = record {
  hunk = record {
    before = [];
    expected = codes "c";
    after = [];
    content = codes "w";
    target = codes "lines";
    start_hint = pos 3;
    end_hint = pos 3;
  };
  start_offset = 4;
  end_offset = 5;
  start_line = 3;
  start_char = 0;
  end_line = 3;
  end_char = 1;
}

abbrev input : SectionProposalInput
input =
    patch_input request raw (codes "shorter") (codes "a") first_hunk (first_hunk ∷ third_hunk ∷ [])
