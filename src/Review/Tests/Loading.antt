-- ===== src/Review/Tests/Loading.antt =====
-- The instance of the theorem on the rebuilt proposal.
use planmaxx.Base.{◌≡◌, none, some, false, [], ◌∷◌}
use planmaxx.Base.Int.{pos}
use planmaxx.Base.Text.{codes}
use planmaxx.Session.Types.{SectionProposal, Session}
use planmaxx.Sectioniter.Protocol.{Xml, at_end}
use planmaxx.Review.Migrations.{rebuild_pending_proposal}
use planmaxx.Review.Migrations.Rebuilt.{rebuild_pending_proposal_twice}
use planmaxx.Review.Tests.Data.{review, new_proposal, second_line}

-- Every response replaces the second line.
abbrev xml : Xml
xml = record {
  root_name = λ raw. some (codes "planmaxx_proposal", at_end);
  reply = λ raw. none;
  proposal = λ raw. some (
    record {
      local_name = codes "planmaxx_proposal";
      version = codes "1";
      revision = codes "rev-1";
      summary = codes "shorter";
      replacements =
          record {
            target = codes "lines";
            start = codes "2";
            end = codes "2";
            before = [];
            expected = codes "step one";
            after = [];
            content = some (codes "step");
          }
          ∷ [];
    },
    at_end,
  );
}

-- The pending proposal was made of the response by rules that are no longer in use.
abbrev proposal : SectionProposal
proposal = record new_proposal {
  raw_response = codes "<planmaxx_proposal/>";
  instruction = codes "shorten";
  original_section = codes "step one";
  applied_hunks = record { anchor = second_line; result = second_line; line_delta = pos 0 } ∷ [];
}

abbrev session : Session
session = record review { pending_proposal = some proposal }

rebuild_pending_proposal_twice_example :
    ((rebuild_pending_proposal xml (rebuild_pending_proposal xml session).1).0 ≡ false)
    × ((rebuild_pending_proposal xml (rebuild_pending_proposal xml session).1).1
        ≡ (rebuild_pending_proposal xml session).1)
rebuild_pending_proposal_twice_example = rebuild_pending_proposal_twice xml session
