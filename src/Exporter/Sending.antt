-- ===== src/Exporter/Sending.antt =====
-- `_send_batch` and `_spool` of exporter.py.
use proofstep.Prelude.{
  ℕ, zero, suc, ◌+◌, Bool, ◌&&◌, List, [], ◌∷◌, ◌++◌, ltb, ◌==◌, if◌then◌else◌, length,
}
use proofstep.Exporter.{Place, Loop, State}

-- What `_post` does: the server takes the batch, refuses it with a status from 400 on that is not
-- retried, or the call raises.
pub data Posted : Type 0 where
  accepted rejected raised : Posted

-- How a batch ends: taken for sent, spooled, or neither.
pub data Sent : Type 0 where
  exported spooled discarded : Sent

-- One run of `_send_batch`: whether the batch is encoded within the limit, whether the
-- exporter is stopping at each attempt, what each attempt meets, and whether a spooled file can be written.
pub record Sending : Type 0 where
  pub encodes : Bool
  pub stopping : ℕ → Bool
  pub max_retries : ℕ
  pub posted : ℕ → Posted
  pub spools : Bool

abbrev pub spool_or_not : Bool → Sent
spool_or_not spools = if spools then Sent.spooled else Sent.discarded

-- The loop over the attempts, with the number of attempts that failed. A refused batch is not told
-- from a sent one.
unfoldable pub send_from : Sending → ℕ → ℕ → Sent × ℕ
send_from run zero attempt = (Sent.discarded, 0)
send_from run (suc left) attempt =
    let later = send_from run left (attempt + 1) in
    if run.stopping attempt && ltb 0 attempt
    then (Sent.discarded, 0)
    else elim (run.posted attempt) [
      | Posted.accepted ↦ (Sent.exported, 0)
      | Posted.rejected ↦ (Sent.exported, 0)
      | Posted.raised ↦ if left == 0 then (spool_or_not run.spools, 1) else (later.0, later.1 + 1)
    ]

unfoldable pub send_batch : Sending → Sent × ℕ
send_batch run = if run.encodes then send_from run run.max_retries 0 else (Sent.discarded, 0)

-- Where a worker goes on after it has sent.
abbrev pub after_batch : Loop → Loop
after_batch w = record w {
  batch = [];
  place = if w.is_past_loop then Place.closing else Place.testing;
}

-- The end of `_send_batch` for a worker; a batch that was sent is counted in two more steps.
unfoldable pub deliver : Sent → List Loop → Loop → List Loop → State → State
deliver Sent.exported before w after s = record s {
  workers = before ++ record w { place = Place.sent } ∷ after;
}
deliver Sent.spooled before w after s = record s {
  workers = before ++ after_batch w ∷ after;
  in_spool = s.in_spool + length w.batch;
}
deliver Sent.discarded before w after s = record s {
  workers = before ++ after_batch w ∷ after;
  lost = s.lost + length w.batch;
}
