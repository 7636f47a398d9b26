-- ===== src/Session/Restore/Messages.antt =====
-- The counter of messages bounds the numbers of the messages of all threads.
use planmaxx.Base.{◌≡◌, some, List, [], ◌∷◌, if◌then◌else◌, arith, All, map, if-cases}
use planmaxx.Base.Int.{ℤ, ◌≤ℤ◌, max}
use planmaxx.Base.Text.{Text, codes, text_comparable, has_prefix}
use planmaxx.Session.Restore.{
  numbered_id, numbered_message_id, max_message, max_thread_message, max_feedback_message,
  max_revision_message,
}
use planmaxx.Session.Types.{Message, Thread, Revision, RevisionFeedback}
use planmaxx.Session.Restore.Fresh.{Bounded, Bounded-weaken}

-- Numbers of messages that do not pass the counter.
abbrev pub MessagesBounded : ℤ → List Message → Type 0
MessagesBounded m xs = Bounded (codes "msg-") m (map (λ (x : Message). x.id) xs)

pub max-left : (a b : ℤ) → a ≤ℤ max a b
max-left a b = ground arith

pub max-right : (a b : ℤ) → b ≤ℤ max a b
max-right a b = ground arith

message_id_le :
    (id : Text) (n : ℤ) → numbered_id id (codes "msg-") ≡ some n → n ≤ℤ numbered_message_id id
unfolding numbered_message_id
message_id_le id n at = rw (at, numbered_message_id) (omega arith)

max_message-Bounded :
    (m : ℤ) (xs : List Message) → (m ≤ℤ max_message m xs) × MessagesBounded (max_message m xs) xs
unfolding max_message
max_message-Bounded m [] = (omega arith, tt)
max_message-Bounded m (x ∷ xs) =
    let k = numbered_message_id x.id in
    let (le, rest) = max_message-Bounded (max m k) xs in
    let above = max-left m k in
    let above' = max-right m k in
    (omega arith, ((λ n at. let under = message_id_le x.id n at in omega arith), rest))

pub max_thread_message-Bounded :
    (m : ℤ) (ts : List Thread)
    → (m ≤ℤ max_thread_message m ts)
      × All (λ (t : Thread). MessagesBounded (max_thread_message m ts) t.messages) ts
unfolding max_thread_message
max_thread_message-Bounded m [] = (omega arith, tt)
max_thread_message-Bounded m (t ∷ ts) =
    let (le, here) = max_message-Bounded m t.messages in
    let (le', rest) = max_thread_message-Bounded (max_message m t.messages) ts in
    (omega arith, (Bounded-weaken (codes "msg-") _ _ _ le' here, rest))

max_feedback_message_le : (m : ℤ) (fs : List RevisionFeedback) → m ≤ℤ max_feedback_message m fs
unfolding max_feedback_message
max_feedback_message_le m [] = omega arith
max_feedback_message_le m (f ∷ fs) =
    let le = (max_message-Bounded m f.messages).0 in
    let le' = max_feedback_message_le (max_message m f.messages) fs in omega arith

pub max_revision_message_le : (m : ℤ) (rs : List Revision) → m ≤ℤ max_revision_message m rs
unfolding max_revision_message
max_revision_message_le m [] = omega arith
max_revision_message_le m (r ∷ rs) =
    let k = if has_prefix r.id (codes "rev-") then max_feedback_message m r.feedback else m in
    let here : m ≤ℤ k =
      if-cases (λ z. m ≤ℤ z) (has_prefix r.id (codes "rev-")) _ _
        (λ _. max_feedback_message_le m r.feedback) (λ _. omega arith) in
    let later = max_revision_message_le k rs in omega arith
