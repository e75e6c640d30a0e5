-- ===== src/Consensus.antt =====
-- src/consensus.rs and the proof-of-work check of src/types.rs: the faults, and the rules that
-- refuse a header.
pub mod Params
pub mod Window
use chaintracks_cloudflare.Prelude.{
  ℕ, ◌-◌, Option, none, some, Text, Bool, true, false, replicate, if◌then◌else◌, ◌==◌, Result, ok,
  err, ◌>>=◌, ◌>>◌, map_err, eq_ignore_ascii_case,
}
use chaintracks_cloudflare.Bsv.{Bsv, PowError, DifficultyError, HeaderLink}
use chaintracks_cloudflare.Types.{BlockHeader, wire}
use Params.{ChainParams, checkpoint_at}
use Window.{as_ancestry}

pub data HeaderFault : Type 0 where
  hash_mismatch : Text → Text → HeaderFault
  bits_negative bits_overflow bits_zero bits_above_limit high_hash : ℕ → HeaderFault
  bad_diff_bits : ℕ → ℕ → HeaderFault
  checkpoint_mismatch : ℕ → Text → HeaderFault
  fork_prior_to_checkpoint : ℕ → ℕ → HeaderFault
  prev_not_found : Text → HeaderFault
  bad_genesis : Text → HeaderFault
  ancestry_missing : ℕ → HeaderFault
  no_difficulty_answer : DifficultyError → HeaderFault

unfoldable pub pow_fault : ⦃b : Bsv⦄ → PowError → ℕ → HeaderFault
pow_fault (PowError.bits_negative n) bits = HeaderFault.bits_negative n
pow_fault ⦃b⦄ (PowError.bits_zero n) bits =
    if b.compact_overflow n then HeaderFault.bits_overflow n else HeaderFault.bits_zero n
pow_fault (PowError.bits_overflow n) bits = HeaderFault.bits_overflow n
pow_fault (PowError.bits_above_limit n) bits = HeaderFault.bits_above_limit n
pow_fault (PowError.high_hash n) bits = HeaderFault.high_hash n
pow_fault PowError.other bits = HeaderFault.high_hash bits

unfoldable pub check_proof_of_work :
    ⦃b : Bsv⦄ → Text → ℕ → ChainParams → Result HeaderFault (Unit {0})
check_proof_of_work ⦃b⦄ hash bits params =
    map_err (λ fault. pow_fault fault bits) (b.check_proof_of_work hash bits params.pow.pow_limit)

-- The zero hash meets every target, so a refusal here is the bits'.
unfoldable pub check_bits : ⦃b : Bsv⦄ → ℕ → ChainParams → Result HeaderFault (Unit {0})
unfolding check_proof_of_work
check_bits bits params = check_proof_of_work (replicate 32 0) bits params

-- `BlockHeader::check_pow`.
unfoldable pub check_pow : ⦃b : Bsv⦄ → BlockHeader → ChainParams → Result HeaderFault (Unit {0})
unfolding check_bits
check_pow ⦃b⦄ h params = do
  check_bits h.bits params
  let computed = b.wire_id (wire h)
  if eq_ignore_ascii_case computed h.hash
      then check_proof_of_work (b.wire_hash (wire h)) h.bits params
      else err (HeaderFault.hash_mismatch h.hash computed)

unfoldable pub check_checkpoint : ℕ → Text → ChainParams → Result HeaderFault (Unit {0})
check_checkpoint height hash params = elim (checkpoint_at params height) [
  | none ↦ ok tt
  | some expected ↦
      if eq_ignore_ascii_case expected hash
      then ok tt
      else err (HeaderFault.checkpoint_mismatch height expected)
]

unfoldable pub difficulty_fault : DifficultyError → HeaderFault
difficulty_fault (DifficultyError.missing_ancestor height) = HeaderFault.ancestry_missing height
difficulty_fault (DifficultyError.other n) =
    HeaderFault.no_difficulty_answer (DifficultyError.other n)

-- `Link::from(&BlockHeader)`.
abbrev pub link_of : BlockHeader → HeaderLink
link_of h = record { height = h.height; time = h.time; bits = h.bits }

unfoldable pub next_work_required :
    ⦃b : Bsv⦄ → Window.Window → ℕ → ℕ → ChainParams → Result HeaderFault ℕ
next_work_required w prev_height new_time params =
    map_err difficulty_fault (params.pow.next_work_required (as_ancestry w) prev_height new_time)

-- The checkpoint, then the bits. Every caller's header stands above its parent, so `height - 1`
-- does not wrap.
unfoldable pub check_context :
    ⦃b : Bsv⦄ → Window.Window → BlockHeader → ChainParams → Result HeaderFault (Unit {0})
unfolding check_checkpoint next_work_required
check_context w h params = do
  check_checkpoint h.height h.hash params
  expected ← next_work_required w (h.height - 1) h.time params
  if h.bits == expected then ok tt else err (HeaderFault.bad_diff_bits expected h.bits)
