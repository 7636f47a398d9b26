-- ===== src/Sectioniter/Protocol.antt =====
-- ParseResponse: internal/sectioniter/protocol.go, over a decoder of XML.
use planmaxx.Base.{
  ℕ, zero, suc, ◌+◌, ◌-◌, ◌*◌, ◌^◌, ltb, leb, eqb, Bool, true, false, ◌&&◌, ◌||◌, not, Option, none,
  some, List, [], ◌∷◌, ◌==◌, if◌then◌else◌, ◌⊎◌, inl, inr,
}
use planmaxx.Base.Int.{ℤ, pos, negsuc}
use planmaxx.Base.Text.{Text, codes, text_comparable}
use planmaxx.Base.Utf8.{trim_space}
use planmaxx.Patches.Hunks.{Hunk}
use planmaxx.Sectioniter.Section.{◌>>=◌}

-- What decoder.Token returns behind the document.
pub data Trailing : Type 0 where
  at_end broken content : Trailing

-- The structs that encoding/xml fills; a missing element content is none.
pub record ReplyWire : Type 0 where
  pub version : Text
  pub revision : Text
  pub message : Text

pub record ReplacementWire : Type 0 where
  pub target : Text
  pub start : Text
  pub end : Text
  pub before : Text
  pub expected : Text
  pub after : Text
  pub content : Option Text

pub record ProposalWire : Type 0 where
  pub local_name : Text
  pub version : Text
  pub revision : Text
  pub summary : Text
  pub replacements : List ReplacementWire

-- encoding/xml: Decode into the three structs, with the token that follows; none is an error.
pub record Xml : Type 0 where
  pub root_name : Text → Option (Text × Trailing)
  pub reply : Text → Option (ReplyWire × Trailing)
  pub proposal : Text → Option (ProposalWire × Trailing)

pub record ParsedResponse : Type 0 where
  pub revision_id : Text
  pub summary : Text
  pub hunks : List Hunk
  pub thread_reply : Text

-- decodeSingleXMLDocument; the text does not hold the error that the decoder returns.
unfoldable pub decode_single : {A : Type 0} → Option (A × Trailing) → Text ⊎ A
decode_single none = inl (codes "section iteration response is not valid XML")
decode_single (some (a, at_end)) = inr a
decode_single (some (a, broken)) =
    inl (codes "section iteration response has invalid trailing content")
decode_single (some (a, content)) =
    inl (codes "section iteration response has content outside the XML document")

-- strconv.ParseUint: the number of the digits, which is the largest uint64 once they pass it;
-- none is a syntax error.
parse_uint : ℕ → Text → Option ℕ
parse_uint n [] = some n
parse_uint n (c ∷ s) =
    if ltb c b'0' || ltb b'9' c
    then none
    else if leb (2 ^ 64) (n * 10 + (c - b'0'))
    then some (2 ^ 64 - 1)
    else parse_uint (n * 10 + (c - b'0')) s

digits_of : Text → Option ℕ
unfolding parse_uint
digits_of [] = none
digits_of (c ∷ s) = parse_uint 0 (c ∷ s)

at_most : Option ℕ → ℤ
at_most none = pos 0
at_most (some n) = if ltb n (2 ^ 63) then pos n else pos (2 ^ 63 - 1)

at_least : Option ℕ → ℤ
at_least none = pos 0
at_least (some zero) = pos 0
at_least (some (suc n)) = if ltb n (2 ^ 63) then negsuc n else negsuc (2 ^ 63 - 1)

-- `start, _ := strconv.Atoi(h.Start)`: zero where the text is no number, and the nearest int where
-- it is out of range.
unfoldable pub hint : Text → ℤ
unfolding digits_of at_most at_least
hint [] = pos 0
hint (c ∷ s) =
    if eqb c b'-'
    then at_least (digits_of s)
    else if eqb c b'+'
    then at_most (digits_of s)
    else at_most (digits_of (c ∷ s))

abbrev hunk_of : ReplacementWire → Text → Hunk
hunk_of h text = record {
  before = h.before;
  expected = h.expected;
  after = h.after;
  content = text;
  target = h.target;
  start_hint = hint h.start;
  end_hint = hint h.end;
}

unfoldable pub read_replacement : ReplacementWire → Text ⊎ Hunk
read_replacement h =
    if not (h.target == codes "lines") && not (h.target == codes "selection")
    then inl (codes "protocol hunk target must be selection or lines")
    else elim h.content [
      | none ↦ inl (codes "protocol hunk requires a content element")
      | some text ↦
          if h.expected == []
          then inl (codes "protocol hunk requires expected source text")
          else inr (hunk_of h text)
    ]

unfoldable pub read_replacements : List ReplacementWire → Text ⊎ List Hunk
unfolding read_replacement
read_replacements [] = inr []
read_replacements (h ∷ hs) =
    read_replacement h >>= λ hunk. read_replacements hs >>= λ rest. inr (hunk ∷ rest)

unfoldable pub read_reply : ReplyWire → Text ⊎ ParsedResponse
read_reply r =
    if not (r.version == codes "1") || r.revision == [] || trim_space r.message == []
    then inl (codes "thread reply protocol requires version, revision, and message")
    else inr (record {
      revision_id = r.revision;
      summary = [];
      hunks = [];
      thread_reply = trim_space r.message;
    })

abbrev is_empty_list : List ReplacementWire → Bool
is_empty_list [] = true
is_empty_list (h ∷ hs) = false

unfoldable pub read_proposal : ProposalWire → Text ⊎ ParsedResponse
unfolding read_replacements
read_proposal p =
    if not (p.local_name == codes "planmaxx_proposal")
      || not (p.version == codes "1")
      || p.revision == []
      || trim_space p.summary == []
      || is_empty_list p.replacements
    then inl (codes "protocol requires proposal, revision, summary, and hunks")
    else read_replacements p.replacements >>= λ hunks. inr (record {
      revision_id = p.revision;
      summary = trim_space p.summary;
      hunks = hunks;
      thread_reply = [];
    })

unfoldable pub parse_response : Xml → Text → Text ⊎ ParsedResponse
unfolding decode_single read_reply read_proposal
parse_response x raw = decode_single (x.root_name raw) >>= λ root.
    if root == codes "planmaxx_thread_reply"
    then decode_single (x.reply raw) >>= read_reply
    else decode_single (x.proposal raw) >>= read_proposal
