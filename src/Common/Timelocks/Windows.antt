-- ===== src/Common/Timelocks/Windows.antt =====
-- The window of a handler: from one stage on, and before another.
use solana_crosschain_protoc.Base.{
  ℕ, ◌≤◌, ◌<◌, ◌≡◌, Bool-cases, inl, inr, >>=-eq-ok, ok-injective, leb→le, ltb→lt, Bool, true,
  false, Result, ok, ◌>>=◌, leb, ltb, if◌then◌else◌,
}
use solana_crosschain_protoc.Uint256.{U256Ops}
use solana_crosschain_protoc.Common.Timelocks.{Stage, Timelocks, get}

-- `now >= timelocks.get(opening)? && now < timelocks.get(closing)?`: the closing time is read only
-- where the first test holds.
unfoldable pub in_window : U256Ops → Timelocks → ℕ → Stage → Stage → Result Bool
in_window u t now opening closing = do
  start ← get u t opening
  let before_close = do stop ← get u t closing; ok (ltb now stop)
  if leb start now then before_close else ok false

-- Where the test passes, both times were read and the clock lies between them.
pub record IsOpen (u : U256Ops) (t : Timelocks) (now : ℕ) (opening closing : Stage) : Type 0 where
  pub start : ℕ
  pub stop : ℕ
  pub start_read : get u t opening ≡ ok start
  pub stop_read : get u t closing ≡ ok stop
  pub started : start ≤ now
  pub not_stopped : now < stop

pub in_window-IsOpen :
    (u : U256Ops) (t : Timelocks) (now : ℕ) (opening closing : Stage)
    → in_window u t now opening closing ≡ ok true
    → IsOpen u t now opening closing
unfolding in_window
in_window-IsOpen u t now opening closing h =
    let (start, e, k) = >>=-eq-ok (get u t opening) _ h in
    elim (Bool-cases (leb start now)) [
      | inl started ↦
          let k' : (get u t closing >>= λ stop. ok (ltb now stop)) ≡ ok true = rw started at k in
          let (stop, e', q) = >>=-eq-ok (get u t closing) _ k' in
          record {
            start = start;
            stop = stop;
            start_read = e;
            stop_read = e';
            started = leb→le start now started;
            not_stopped = ltb→lt now stop (ok-injective q);
          }
      | inr early ↦ absurd (let bad : false ≡ true = ok-injective (rw early at k) in cc)
    ]
