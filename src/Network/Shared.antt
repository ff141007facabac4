-- ===== src/Network/Shared.antt =====
-- network.c: the buffers that the writes to several peers share, by a count of references.
-- A write completes some time after it was started, when the event loop calls `on_write`.
use whosecoin_core.Base.{
  ℕ, zero, suc, ◌+◌, ◌^◌, ◌<◌, ◌≡◌, refl, ap, ◌∙◌, arith, Bool, true, false, ◌==◌, ltb,
  if◌then◌else◌, ℤ, pos, negsuc, is_zero, Run, ok, fault, ◌>>=◌,
}

-- `ref_count` is an `int` of 32 bits, and the memory is there until it is freed.
pub record SharedBuffer : Type 0 where
  pub ref_count : ℤ
  pub is_freed : Bool

unfoldable pub shared_buffer_create : SharedBuffer
shared_buffer_create = record { ref_count = pos 0; is_freed = false }

-- `+= 1` on an `int`; past its greatest value the behaviour is undefined.
unfoldable pub int_increment : ℤ → Run ℤ
int_increment (pos n) = if ltb (n + 1) (2 ^ 31) then ok (pos (n + 1)) else fault
int_increment (negsuc zero) = ok (pos 0)
int_increment (negsuc (suc n)) = ok (negsuc n)

-- `-= 1` on an `int`; past its least value the behaviour is undefined.
unfoldable pub int_decrement : ℤ → Run ℤ
int_decrement (pos zero) = ok (negsuc 0)
int_decrement (pos (suc n)) = ok (pos n)
int_decrement (negsuc n) = if ltb (n + 1) (2 ^ 31) then ok (negsuc (n + 1)) else fault

unfoldable pub shared_buffer_retain : SharedBuffer → Run SharedBuffer
unfolding int_increment
shared_buffer_retain buf = elim buf.is_freed [
  | true ↦ fault
  | false ↦ int_increment buf.ref_count >>= λ count. ok (record buf { ref_count = count })
]

unfoldable pub shared_buffer_release : SharedBuffer → Run SharedBuffer
unfolding int_decrement
shared_buffer_release buf = elim buf.is_freed [
  | true ↦ fault
  | false ↦ int_decrement buf.ref_count >>= λ count.
      ok (record { ref_count = count; is_freed = is_zero count })
]

-- The loop over the peers, each of which has a write started.
unfoldable pub retain_each : ℕ → SharedBuffer → Run SharedBuffer
unfolding shared_buffer_retain
retain_each zero buf = ok buf
retain_each (suc peers) buf = shared_buffer_retain buf >>= retain_each peers

-- The buffer of a message to that many peers, with a write started to each.
unfoldable pub broadcast_message : ℕ → Run SharedBuffer
unfolding shared_buffer_create shared_buffer_retain shared_buffer_release retain_each
broadcast_message peers =
    shared_buffer_retain shared_buffer_create >>= retain_each peers >>= shared_buffer_release

-- One write is started.
unfoldable pub send_message : Run SharedBuffer
unfolding shared_buffer_create shared_buffer_retain
send_message = shared_buffer_retain shared_buffer_create

unfoldable pub on_write : SharedBuffer → Run SharedBuffer
unfolding shared_buffer_release
on_write = shared_buffer_release

-- That many writes complete.
unfoldable pub on_writes : ℕ → SharedBuffer → Run SharedBuffer
unfolding on_write
on_writes zero buf = ok buf
on_writes (suc writes) buf = on_write buf >>= on_writes writes

-- A buffer with the number of references, freed if there is none.
abbrev pub held : ℕ → SharedBuffer
held count = record { ref_count = pos count; is_freed = count == 0 }

positive : (count : ℕ) → 0 < count → (count == 0) ≡ false
positive count h = ground arith

retain-held :
    (count : ℕ)
    → count + 2 < 2 ^ 31
    → shared_buffer_retain (held (suc count)) ≡ ok (held (suc (suc count)))
unfolding shared_buffer_retain
retain-held count h =
    let fits : ltb (suc count + 1) (2 ^ 31) ≡ true = ground arith in
    let one : suc count + 1 ≡ suc (suc count) = omega arith in
    rw
      (
        positive (suc count) (omega arith),
        fits,
        ◌>>=◌,
        one,
        positive (suc (suc count)) (omega arith),
      )
      refl

release-held : (count : ℕ) → shared_buffer_release (held (suc count)) ≡ ok (held count)
unfolding shared_buffer_release
release-held count = rw (positive (suc count) (omega arith), ◌>>=◌) refl

retain_each-held :
    (peers count : ℕ)
    → count + 1 + peers < 2 ^ 31
    → retain_each peers (held (suc count)) ≡ ok (held (suc (count + peers)))
unfolding retain_each
retain_each-held zero count h = ap (λ k. ok (held (suc k))) (omega arith)
retain_each-held (suc peers) count h =
    let sum : suc (suc count + peers) ≡ suc (count + suc peers) = omega arith in
    rw (retain-held count (omega arith), ◌>>=◌)
      (retain_each-held peers (suc count) (omega arith) ∙ ap (λ k. ok (held k)) sum)

on_writes-held : (writes count : ℕ) → on_writes writes (held (writes + count)) ≡ ok (held count)
unfolding on_writes on_write
on_writes-held zero count = ap (λ k. ok (held k)) (omega arith)
on_writes-held (suc writes) count =
    let step : on_write (held (suc writes + count)) ≡ ok (held (writes + count)) =
      ap (λ k. on_write (held k)) (omega arith) ∙ release-held (writes + count) in
    ap (λ r. r >>= on_writes writes) step ∙ on_writes-held writes count

-- After a message was sent to some peers, fewer than 2 ^ 31 - 1, and some of the writes have
-- completed, the buffer has a reference for each write that is left, and is freed exactly if none
-- is; no completed write touches freed memory.
pub on_writes-broadcast :
    (done left : ℕ)
    → done + left + 1 < 2 ^ 31
    → (broadcast_message (done + left) >>= on_writes done) ≡ ok (held left)
unfolding broadcast_message
on_writes-broadcast done left h =
    let all = done + left in
    let each : retain_each all (held 1) ≡ ok (held (suc all)) =
      retain_each-held all 0 (omega arith) ∙ ap (λ k. ok (held (suc k))) (omega arith) in
    ap (λ r. r >>= shared_buffer_release >>= on_writes done) each
    ∙ ap (λ r. r >>= on_writes done) (release-held all)
    ∙ on_writes-held done left
