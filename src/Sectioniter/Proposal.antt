-- ===== src/Sectioniter/Proposal.antt =====
-- BuildProposal and Propose: internal/sectioniter/service.go. An error is the left summand.
pub mod Built
pub mod Shift
pub mod Placed
use planmaxx.Base.{
  ℕ, zero, suc, ◌+◌, ◌-◌, Bool, true, false, ◌&&◌, ◌||◌, not, Option, none, some, List, [], ◌∷◌,
  ◌++◌, ◌==◌, if◌then◌else◌, ◌⊎◌, inl, inr, length, last?, ltb, eqb,
}
use planmaxx.Base.Int.{ℤ, pos, ◌+ℤ◌, ◌-ℤ◌, ltb_ℤ, leb_ℤ, int_comparable}
use planmaxx.Base.Text.{Text, codes, text_comparable, split_lines, count_newlines}
use planmaxx.Base.Utf8.{trim_space}
use planmaxx.Patches.Hunks.{Hunk, Resolved, bytes, position_at}
use planmaxx.Patches.Resolve.{resolve, apply}
use planmaxx.Session.Types.{Anchor, zero_anchor, AppliedHunk, SectionProposalInput}
use planmaxx.Session.Anchors.{utf16_length, has_character_range}
use planmaxx.Session.Locate.{to_nat}
use planmaxx.Sectioniter.Section.{◌>>=◌, section_for_anchor}
use planmaxx.Sectioniter.Protocol.{Xml, ParsedResponse, parse_response}

-- Request, without what only the prompt uses (Protocol and Format).
pub record IterationRequest : Type 0 where
  pub revision_id : Text
  pub thread_id : Text
  pub plan : Text
  pub anchor : Anchor
  pub replacement_anchor : Anchor
  pub root_applied_anchor : Anchor
  pub selected_section : Text
  pub reviewer_instruction : Text
  pub included_thread_ids : List Text

-- lineCount: a newline at the end makes no line.
without_last_empty : List Text → ℕ
without_last_empty [] = 1
without_last_empty (l ∷ []) = 1
without_last_empty (l ∷ m ∷ ls) =
    if (elim (last? (m ∷ ls)) [ none ↦ false | some x ↦ x == [] ])
    then suc (length ls)
    else suc (suc (length ls))

unfoldable pub plan_lines : Text → ℕ
unfolding without_last_empty
plan_lines text = without_last_empty (split_lines text)

unfoldable pub is_whole_plan_anchor : Text → Anchor → Bool
unfolding plan_lines
is_whole_plan_anchor plan a =
    not (has_character_range a) && a.start_line == pos 1 && a.end_line == pos (plan_lines plan)

unfoldable pub anchor_for_resolved_hunk : Resolved → Anchor
anchor_for_resolved_hunk r =
    let selection = r.hunk.target == codes "selection" in
    record {
      start_line = pos r.start_line;
      start_char = if selection then pos r.start_char else pos 0;
      end_line = pos r.end_line;
      end_char = if selection then pos r.end_char else pos 0;
    }

-- anchorsOverlap of this package
unfoldable pub ranges_overlap : Anchor → Anchor → Bool
ranges_overlap l r =
    if ltb_ℤ l.end_line r.start_line || ltb_ℤ r.end_line l.start_line
    then false
    else if not (l.start_line == l.end_line)
        || not (r.start_line == r.end_line)
        || not (has_character_range l)
        || not (has_character_range r)
    then true
    else ltb_ℤ l.start_char r.end_char && ltb_ℤ r.start_char l.end_char

-- primaryResolvedHunk of a list that is not empty: its first hunk, and the list.
unfoldable pub primary_resolved_hunk : Resolved → List Resolved → Anchor → Resolved
unfolding ranges_overlap anchor_for_resolved_hunk
primary_resolved_hunk first [] target = first
primary_resolved_hunk first (r ∷ rs) target =
    if ranges_overlap (anchor_for_resolved_hunk r) target
    then r
    else primary_resolved_hunk first rs target

unfoldable pub anchor_after_replacement : Anchor → Text → Anchor
anchor_after_replacement a replacement =
    let lines = split_lines replacement in
    let last : Text = elim (last? lines) [ none ↦ [] | some l ↦ l ] in
    let end_line = a.start_line +ℤ pos (length lines) -ℤ pos 1 in
    if not (has_character_range a)
    then record {
      start_line = a.start_line;
      start_char = pos 0;
      end_line = end_line;
      end_char = pos 0;
    }
    else if eqb (length lines) 1
    then record {
      start_line = a.start_line;
      start_char = a.start_char;
      end_line = a.start_line;
      end_char = a.start_char +ℤ pos (utf16_length last);
    }
    else record {
      start_line = a.start_line;
      start_char = a.start_char;
      end_line = end_line;
      end_char = pos (utf16_length last);
    }

-- The offsets resultStart and resultEnd in the proposed plan, at the variable byteShift.
unfoldable pub result_start : ℤ → Resolved → ℤ
result_start shift r = pos r.start_offset +ℤ shift

unfoldable pub result_end : ℤ → Resolved → ℤ
unfolding result_start
result_end shift r = result_start shift r +ℤ pos (length r.hunk.content)

-- One round of the loop over the resolved hunks, at the variable byteShift.
unfoldable pub applied_hunk : Text → Text → ℤ → Resolved → AppliedHunk
unfolding anchor_for_resolved_hunk result_start result_end
applied_hunk plan proposed shift r =
    let (start_line, start_char) = position_at proposed (to_nat (result_start shift r)) in
    let (end_line, end_char) = position_at proposed (to_nat (result_end shift r)) in
    let whole_lines = r.hunk.target == codes "lines" in
    record {
      anchor = anchor_for_resolved_hunk r;
      result = record {
        start_line = pos start_line;
        start_char = if whole_lines then pos 0 else pos start_char;
        end_line = pos end_line;
        end_char = if whole_lines then pos 0 else pos end_char;
      };
      line_delta =
          pos (count_newlines r.hunk.content)
          -ℤ pos (count_newlines (bytes plan r.start_offset r.end_offset));
    }

unfoldable pub shift_behind : ℤ → Resolved → ℤ
shift_behind shift r =
    shift +ℤ (pos (length r.hunk.content) -ℤ (pos r.end_offset -ℤ pos r.start_offset))

unfoldable pub applied_hunks_from : Text → Text → ℤ → List Resolved → List AppliedHunk
unfolding applied_hunk shift_behind
applied_hunks_from plan proposed shift [] = []
applied_hunks_from plan proposed shift (r ∷ rs) =
    applied_hunk plan proposed shift r ∷ applied_hunks_from plan proposed (shift_behind shift r) rs

-- The targetAnchor of BuildProposal
abbrev pub target_anchor : IterationRequest → Anchor
target_anchor q =
    if ltb_ℤ (pos 0) q.replacement_anchor.start_line then q.replacement_anchor else q.anchor

unfoldable pub selected_text : IterationRequest → Text ⊎ Text
selected_text q =
    if trim_space q.selected_section == []
    then section_for_anchor q.plan (target_anchor q)
    else inr q.selected_section

abbrev empty_input : SectionProposalInput
empty_input = record {
  kind = [];
  thread_id = [];
  anchor = zero_anchor;
  applied_anchor = zero_anchor;
  applied_hunks = [];
  replacement_anchor = zero_anchor;
  original_section = [];
  proposed_section = [];
  proposed_plan = [];
  summary = [];
  instruction = [];
  raw_response = [];
  included_thread_ids = [];
  consumed_side_answer_ids = [];
  review_digest = none;
  agent_reply = [];
}

-- The input that a reply of the agent makes.
unfoldable pub reply_input : IterationRequest → Text → Text → SectionProposalInput
reply_input q raw reply = record empty_input {
  thread_id = q.thread_id;
  anchor = q.anchor;
  instruction = q.reviewer_instruction;
  raw_response = raw;
  agent_reply = reply;
}

-- The input that resolved hunks make; `first` is the first of them.
unfoldable pub patch_input :
    IterationRequest → Text → Text → Text → Resolved → List Resolved → SectionProposalInput
unfolding primary_resolved_hunk anchor_for_resolved_hunk anchor_after_replacement applied_hunks_from
    is_whole_plan_anchor
patch_input q raw summary selected first resolved =
    let proposed = apply q.plan resolved in
    let primary = primary_resolved_hunk first resolved q.replacement_anchor in
    let applied = anchor_for_resolved_hunk primary in
    let refined = ltb_ℤ (pos 0) q.root_applied_anchor.start_line in
    let whole = is_whole_plan_anchor q.plan (target_anchor q) in
    record empty_input {
      thread_id = q.thread_id;
      anchor = q.anchor;
      applied_anchor = if refined then q.root_applied_anchor else applied;
      applied_hunks = if refined then [] else applied_hunks_from q.plan proposed (pos 0) resolved;
      replacement_anchor =
          if whole
          then record {
            start_line = pos 1;
            start_char = pos 0;
            end_line = pos (plan_lines proposed);
            end_char = pos 0;
          }
          else anchor_after_replacement applied primary.hunk.content;
      original_section = if whole then q.plan else selected;
      proposed_section = if whole then proposed else primary.hunk.content;
      proposed_plan = proposed;
      summary = summary;
      instruction = q.reviewer_instruction;
      raw_response = raw;
      included_thread_ids = q.included_thread_ids;
    }

-- BuildProposal behind ParseResponse; Resolve of hunks that are not empty returns as many.
unfoldable pub input_of_hunks :
    IterationRequest → Text → Text → Text → Text ⊎ List Resolved → Text ⊎ SectionProposalInput
unfolding patch_input
input_of_hunks q raw summary selected (inl e) = inl e
input_of_hunks q raw summary selected (inr []) =
    inl (codes "section iteration response contains no patch hunks")
input_of_hunks q raw summary selected (inr (r ∷ rs)) =
    inr (patch_input q raw summary selected r (r ∷ rs))

-- The checks of the response; the error of the first one does not name the two revisions.
unfoldable pub input_of_response :
    IterationRequest → Text → Text → ParsedResponse → Text ⊎ SectionProposalInput
unfolding reply_input input_of_hunks
input_of_response q raw selected p =
    if not (p.revision_id == q.revision_id)
    then inl (codes "section iteration response targets another revision")
    else if not (p.thread_reply == [])
    then if q.thread_id == []
      then inl (codes "section iteration response cannot reply without a target thread")
      else inr (reply_input q raw p.thread_reply)
    else if ltb 0 (length p.hunks)
    then input_of_hunks q raw p.summary selected (resolve q.plan p.hunks)
    else inl (codes "section iteration response contains no patch hunks")

unfoldable pub build_proposal : Xml → IterationRequest → Text → Text ⊎ SectionProposalInput
unfolding selected_text input_of_response
build_proposal x q raw =
    if trim_space q.reviewer_instruction == []
    then inl (codes "reviewer instruction is required")
    else selected_text q >>= λ selected.
        parse_response x raw >>= λ p. input_of_response q raw selected p

-- What Propose fails with: the context is canceled or over time, the service is not there, or
-- another error; with its text.
pub data ProposeError : Type 0 where
  context_canceled : ProposeError
  deadline_exceeded unavailable failure : Text → ProposeError

abbrev as_failure : Text ⊎ SectionProposalInput → ProposeError ⊎ SectionProposalInput
as_failure (inl e) = inl (failure e)
as_failure (inr i) = inr i

-- Propose: `context` is what ctx.Err returns at first, `ask` the agent's answer to the prompt
-- (AskPrompt), `attached` says that the service has a thread and a client.
unfoldable pub propose :
    Xml
    → Option ProposeError
    → Bool
    → ProposeError ⊎ Text
    → IterationRequest
    → ProposeError ⊎ SectionProposalInput
unfolding build_proposal
propose x (some e) attached answer q = inl e
propose x none attached answer q =
    if trim_space q.reviewer_instruction == []
    then inl (failure (codes "reviewer instruction is required"))
    else if not attached
    then inl (unavailable (codes "section iteration unavailable"))
    else elim answer [ inl e ↦ inl e | inr raw ↦ as_failure (build_proposal x q raw) ]
