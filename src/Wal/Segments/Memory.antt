-- ===== src/Wal/Segments/Memory.antt =====
-- The shared memory of the WAL storage manager: EncryptionStateData, and behind it the encryption
-- buffer, aligned for direct input and output. What PostgreSQL defines is a parameter.
use open_pg_tde.Base.{
  ℕ, ◌+◌, ◌*◌, ◌/◌, ◌≤◌, ◌<◌, ◌^◌, ◌≡◌, Option, none, some, ltb, if◌then◌else◌, arith, Bool-cases,
  Option-cases, sym, inl, inr,
}

-- XLOG_BLCKSZ, NBuffers, wal_segment_size, XLOGbuffers (none: -1, chosen from the others),
-- PG_IO_ALIGN_SIZE with the macro TYPEALIGN, which rounds an address up, and the size of
-- EncryptionStateData.
pub record Settings : Type 0 where
  pub xlog_blcksz : ℕ
  pub n_buffers : ℕ
  pub wal_segment_size : ℕ
  pub xlog_buffers : Option ℕ
  pub io_align_size : ℕ
  pub type_align : ℕ → ℕ
  pub type_align_le : (address : ℕ) → type_align address < address + io_align_size
  pub le-type_align : (address : ℕ) → address ≤ type_align address
  pub state_size : ℕ

-- PostgreSQL's add_size and mul_size raise an error where a Size overflows; none is this error.
abbrev pub add_size : ℕ → ℕ → Option ℕ
add_size a b = if ltb (a + b) (2 ^ 64) then some (a + b) else none

abbrev pub mul_size : ℕ → ℕ → Option ℕ
mul_size a b = if ltb (a * b) (2 ^ 64) then some (a * b) else none

abbrev pub then_some : Option ℕ → (ℕ → Option ℕ) → Option ℕ
then_some none f = none
then_some (some a) f = f a

module _ (settings : Settings) where
  open settings use {
    xlog_blcksz, n_buffers, wal_segment_size, xlog_buffers, io_align_size, type_align, state_size,
  }

  -- MAX_SEND_SIZE
  abbrev pub max_send_size : ℕ
  max_send_size = xlog_blcksz * 16

  -- XLOGChooseNumBuffers
  unfoldable pub choose_num_buffers : ℕ
  choose_num_buffers =
      let wanted = n_buffers / 32 in
      let whole = wal_segment_size / xlog_blcksz in
      let capped = if ltb whole wanted then whole else wanted in if ltb capped 8 then 8 else capped

  unfoldable pub num_buffers : ℕ
  unfolding choose_num_buffers
  num_buffers = elim xlog_buffers [ none ↦ choose_num_buffers | some n ↦ n ]

  -- the larger one of MAX_SEND_SIZE and the WAL buffers
  abbrev pub larger_size : ℕ → ℕ
  larger_size size = if ltb max_send_size size then size else max_send_size

  -- TDEXLogEncryptBuffSize
  unfoldable pub encrypt_buff_size : Option ℕ
  unfolding num_buffers
  encrypt_buff_size = then_some (mul_size xlog_blcksz num_buffers) λ size. some (larger_size size)

  -- TDEXLogSmgrShmemSize
  unfoldable pub smgr_shmem_size : Option ℕ
  unfolding encrypt_buff_size
  smgr_shmem_size =
      then_some encrypt_buff_size
        λ buff. then_some (add_size state_size buff) λ size. add_size size io_align_size

  -- EncryptionBuf of TDEXLogSmgrShmemInit, from the address of the shared structure
  unfoldable pub encryption_buf : ℕ → ℕ
  encryption_buf address = type_align (address + state_size)

  sum_lem :
      (buff size : ℕ)
      → then_some (add_size state_size buff) (λ sum. add_size sum io_align_size) ≡ some size
      → size ≡ state_size + buff + io_align_size
  sum_lem buff size h = elim (Bool-cases (ltb (state_size + buff) (2 ^ 64))) [
    | inl p ↦ elim (Bool-cases (ltb (state_size + buff + io_align_size) (2 ^ 64))) [
      | inl q ↦ sym (cc (rw (p, q) at h))
      | inr q ↦ absurd (cc (rw (p, q) at h))
    ]
    | inr p ↦ absurd (cc (rw p at h))
  ]

  larger_lem :
      (product buff : ℕ)
      → then_some
          (if ltb product (2 ^ 64) then some product else none)
          (λ size. some (larger_size size))
        ≡ some buff
      → (max_send_size ≤ buff) × (product ≤ buff)
  larger_lem product buff h = ground arith

  placed :
      (buff size address : ℕ)
      → then_some (add_size state_size buff) (λ sum. add_size sum io_align_size) ≡ some size
      → (address + state_size ≤ encryption_buf address)
        × (encryption_buf address + buff ≤ address + size)
  unfolding encryption_buf
  placed buff size address h =
      let up = settings.le-type_align (address + state_size) in
      let close = settings.type_align_le (address + state_size) in
      let sum = sum_lem buff size h in (omega arith, omega arith)

  roomy :
      (buff : ℕ)
      → encrypt_buff_size ≡ some buff
      → (max_send_size ≤ buff) × (xlog_blcksz * num_buffers ≤ buff)
  unfolding encrypt_buff_size
  roomy buff h = larger_lem (xlog_blcksz * num_buffers) buff h

  -- Where the sizes do not overflow: wherever the shared memory is placed, the aligned encryption buffer
  -- lies behind the shared state and inside the memory that was asked for, and it has room for
  -- MAX_SEND_SIZE and for all WAL buffers.
  pub encryption_buf-smgr_shmem_size :
      (size address : ℕ)
      → smgr_shmem_size ≡ some size
      → (buff : ℕ) × (encrypt_buff_size ≡ some buff)
        × (max_send_size ≤ buff)
        × (xlog_blcksz * num_buffers ≤ buff)
        × (address + state_size ≤ encryption_buf address)
        × (encryption_buf address + buff ≤ address + size)
  unfolding smgr_shmem_size
  encryption_buf-smgr_shmem_size size address h = elim (Option-cases encrypt_buff_size) [
    | inl p ↦ absurd (cc (rw p at h))
    | inr (buff, p) ↦
        let (fits, holds) = roomy buff p in
        let (behind, inside) = placed buff size address (rw p at h) in
        (buff, p, fits, holds, behind, inside)
  ]
