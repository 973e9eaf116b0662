-- ===== src/Tests/Work.antt =====
-- Tests and examples of internal/worker and of the job table.
use creel.Base.{ℕ, pos, true, false, List, [], ◌∷◌, some, none, ◌≡◌, refl, Memᴰ, string_dec}
use creel.Exec.{ok, err}
use creel.Store.Rows.{ProcessingJob}
use creel.Store.World.{World, statement}
use creel.Store.Jobs.{
  claim_next, claim_row, begin, commit, rollback_on_error, oldest, mark_running, claimable,
  find_job,
}
use creel.Store.Jobs.Claim.{claim_next-none, claim_next-err}
use creel.Worker.Pool.{try_process, Process}
use creel.Worker.Pool.Outcome.{Settled, try_process-Settled}
use creel.Worker.Pool.Interleaving.{System, without}
use creel.Store.Jobs.Locks.{publish}
use creel.Worker.Split.{
  split_text, split_from, effective_size, effective_overlap, non_negative, chunk_end,
}
use creel.Worker.Split.Pieces.{split_text_pieces, rejoin, ArePieces}
use creel.Tests.Data.{job, tables, world}

three_chunks :
    split_text (1 ∷ 2 ∷ 3 ∷ 4 ∷ 5 ∷ 6 ∷ []) (pos 3) (pos 1)
    ≡ some ((1 ∷ 2 ∷ 3 ∷ []) ∷ (3 ∷ 4 ∷ 5 ∷ []) ∷ (5 ∷ 6 ∷ []) ∷ [])
unfolding split_text split_from effective_size effective_overlap non_negative chunk_end
three_chunks = refl

split_text_pieces_example :
    (chunks : List (List ℕ)) × (split_text (1 ∷ 2 ∷ 3 ∷ 4 ∷ 5 ∷ []) (pos 3) (pos 5) ≡ some chunks)
    × (rejoin (effective_overlap (effective_size (pos 3)) (pos 5)) chunks ≡ 1 ∷ 2 ∷ 3 ∷ 4 ∷ 5 ∷ [])
    × ArePieces (effective_size (pos 3)) (effective_overlap (effective_size (pos 3)) (pos 5)) chunks
split_text_pieces_example = split_text_pieces (1 ∷ 2 ∷ 3 ∷ 4 ∷ 5 ∷ []) (pos 3) (pos 5)

-- The second job is the older one.
abbrev claimed_job : ProcessingJob
unfolding mark_running
claimed_job = mark_running 1 (job "j2" 5)

abbrev claimed_world : World
claimed_world = (claim_next "embedding" world).1

claims_j2 : (claim_next "embedding" world).0 ≡ ok (some claimed_job)
unfolding claim_next rollback_on_error begin commit claim_row oldest statement string_dec
claims_j2 = refl

claims_no_extraction : (claim_next "extraction" world).0 ≡ ok none
unfolding claim_next rollback_on_error begin commit claim_row oldest statement string_dec
claims_no_extraction = refl

claim_next-none_example :
    ((claim_next "extraction" world).1.db ≡ tables)
    × ((i : ProcessingJob) → Memᴰ i tables.jobs → claimable "extraction" i ≡ false)
claim_next-none_example = claim_next-none "extraction" world claims_no_extraction

-- A database that answers nothing.
abbrev broken : World
broken = record world { env = record world.env { fails = λ n. true } }

claim_fails : (claim_next "embedding" broken).0 ≡ err "beginning transaction"
unfolding claim_next rollback_on_error begin commit claim_row oldest statement
claim_fails = refl

claim_next-err_example : (claim_next "embedding" broken).1.db ≡ tables
claim_next-err_example = claim_next-err "embedding" broken "beginning transaction" claim_fails

abbrev failing : Process
failing j w = (err "no provider", w)

try_process-Settled_example :
    (after : ProcessingJob) × (find_job "j2" (try_process failing "embedding" world).db.jobs
      ≡ some after)
    × Settled (err "no provider") after
unfolding mark_running claim_next oldest string_dec
try_process-Settled_example =
    try_process-Settled failing "embedding" world claimed_job (λ n. refl) refl refl claims_j2

-- One poll loop locks j2; while it does, another one gets j1; the second commits first.
abbrev other_job : ProcessingJob
unfolding mark_running
other_job = mark_running 0 (job "j1" 8)

abbrev locked_job : ProcessingJob
unfolding mark_running
locked_job = mark_running 0 (job "j2" 5)

abbrev one_held : System
one_held = record { world = world; held = locked_job ∷ []; claimed = [] }

abbrev two_held : System
two_held = record { world = world; held = other_job ∷ locked_job ∷ []; claimed = [] }

abbrev one_claimed : System
one_claimed = record {
  world = record world { db = publish other_job world.db };
  held = without other_job two_held.held;
  claimed = "j1" ∷ [];
}

abbrev two_claimed : System
two_claimed = record {
  world = record one_claimed.world { db = publish locked_job one_claimed.world.db };
  held = without locked_job one_claimed.held;
  claimed = "j2" ∷ "j1" ∷ [];
}
