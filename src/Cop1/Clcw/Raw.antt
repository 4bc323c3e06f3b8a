-- ===== src/Cop1/Clcw/Raw.antt =====
-- The fields of a 32-bit control word as numbers, and what `set` does to them.
use leo_dos.Prelude.{ℕ, ◌/◌, ◌%◌, ◌^◌, ◌<◌, ◌≡◌, arith}
use leo_dos.Cop1.Clcw
use leo_dos.Cop1.Clcw.{set}
use leo_dos.Cop1.Clcw.Fields.{
  set-field, version-IsMask, status-IsMask, cop-IsMask, vcid-IsMask, no_rf-IsMask,
  no_bit_lock-IsMask, lockout-IsMask, wait-IsMask, retransmit-IsMask, farm_b-IsMask, report-IsMask,
}

pub record Raw : Type 0 where
  pub kind : ℕ
  pub version : ℕ
  pub status : ℕ
  pub cop : ℕ
  pub vcid : ℕ
  pub no_rf : ℕ
  pub no_bit_lock : ℕ
  pub lockout : ℕ
  pub wait : ℕ
  pub retransmit : ℕ
  pub farm_b : ℕ
  pub report : ℕ

-- Two such records are the same if their fields are.
Raw_ext :
    {r s : Raw}
    → (r.kind ≡ s.kind)
      × (r.version ≡ s.version)
      × (r.status ≡ s.status)
      × (r.cop ≡ s.cop)
      × (r.vcid ≡ s.vcid)
      × (r.no_rf ≡ s.no_rf)
      × (r.no_bit_lock ≡ s.no_bit_lock)
      × (r.lockout ≡ s.lockout)
      × (r.wait ≡ s.wait)
      × (r.retransmit ≡ s.retransmit)
      × (r.farm_b ≡ s.farm_b)
      × (r.report ≡ s.report)
    → r ≡ s
Raw_ext h = λ i. record {
  kind = h.0 i;
  version = h.1 i;
  status = h.2 i;
  cop = h.3 i;
  vcid = h.4 i;
  no_rf = h.5 i;
  no_bit_lock = h.6 i;
  lockout = h.7 i;
  wait = h.8 i;
  retransmit = h.9 i;
  farm_b = h.10 i;
  report = h.11 i;
}

abbrev pub raw : ℕ → Raw
raw x = record {
  kind = x / 2 ^ 31 % 2 ^ 1;
  version = x / 2 ^ 29 % 2 ^ 2;
  status = x / 2 ^ 26 % 2 ^ 3;
  cop = x / 2 ^ 24 % 2 ^ 2;
  vcid = x / 2 ^ 18 % 2 ^ 6;
  no_rf = x / 2 ^ 15 % 2 ^ 1;
  no_bit_lock = x / 2 ^ 14 % 2 ^ 1;
  lockout = x / 2 ^ 13 % 2 ^ 1;
  wait = x / 2 ^ 12 % 2 ^ 1;
  retransmit = x / 2 ^ 11 % 2 ^ 1;
  farm_b = x / 2 ^ 9 % 2 ^ 2;
  report = x / 2 ^ 0 % 2 ^ 8;
}

pub raw-set_version :
    (x v : ℕ)
    → x < 2 ^ 32
    → v < 2 ^ 2
    → raw (set x Clcw.version_mask v) ≡ record (raw x) { version = v }
raw-set_version x v h b =
    Raw_ext (omega (arith, set-field version-IsMask x v (omega arith) b (omega arith)))

pub raw-set_status :
    (x v : ℕ)
    → x < 2 ^ 32
    → v < 2 ^ 3
    → raw (set x Clcw.status_mask v) ≡ record (raw x) { status = v }
raw-set_status x v h b =
    Raw_ext (omega (arith, set-field status-IsMask x v (omega arith) b (omega arith)))

pub raw-set_cop :
    (x v : ℕ) → x < 2 ^ 32 → v < 2 ^ 2 → raw (set x Clcw.cop_mask v) ≡ record (raw x) { cop = v }
raw-set_cop x v h b =
    Raw_ext (omega (arith, set-field cop-IsMask x v (omega arith) b (omega arith)))

pub raw-set_vcid :
    (x v : ℕ) → x < 2 ^ 32 → v < 2 ^ 6 → raw (set x Clcw.vcid_mask v) ≡ record (raw x) { vcid = v }
raw-set_vcid x v h b =
    Raw_ext (omega (arith, set-field vcid-IsMask x v (omega arith) b (omega arith)))

pub raw-set_no_rf :
    (x v : ℕ)
    → x < 2 ^ 32
    → v < 2 ^ 1
    → raw (set x Clcw.no_rf_mask v) ≡ record (raw x) { no_rf = v }
raw-set_no_rf x v h b =
    Raw_ext (omega (arith, set-field no_rf-IsMask x v (omega arith) b (omega arith)))

pub raw-set_no_bit_lock :
    (x v : ℕ)
    → x < 2 ^ 32
    → v < 2 ^ 1
    → raw (set x Clcw.no_bit_lock_mask v) ≡ record (raw x) { no_bit_lock = v }
raw-set_no_bit_lock x v h b =
    Raw_ext (omega (arith, set-field no_bit_lock-IsMask x v (omega arith) b (omega arith)))

pub raw-set_lockout :
    (x v : ℕ)
    → x < 2 ^ 32
    → v < 2 ^ 1
    → raw (set x Clcw.lockout_mask v) ≡ record (raw x) { lockout = v }
raw-set_lockout x v h b =
    Raw_ext (omega (arith, set-field lockout-IsMask x v (omega arith) b (omega arith)))

pub raw-set_wait :
    (x v : ℕ) → x < 2 ^ 32 → v < 2 ^ 1 → raw (set x Clcw.wait_mask v) ≡ record (raw x) { wait = v }
raw-set_wait x v h b =
    Raw_ext (omega (arith, set-field wait-IsMask x v (omega arith) b (omega arith)))

pub raw-set_retransmit :
    (x v : ℕ)
    → x < 2 ^ 32
    → v < 2 ^ 1
    → raw (set x Clcw.retransmit_mask v) ≡ record (raw x) { retransmit = v }
raw-set_retransmit x v h b =
    Raw_ext (omega (arith, set-field retransmit-IsMask x v (omega arith) b (omega arith)))

pub raw-set_farm_b :
    (x v : ℕ)
    → x < 2 ^ 32
    → v < 2 ^ 2
    → raw (set x Clcw.farm_b_mask v) ≡ record (raw x) { farm_b = v }
raw-set_farm_b x v h b =
    Raw_ext (omega (arith, set-field farm_b-IsMask x v (omega arith) b (omega arith)))

pub raw-set_report :
    (x v : ℕ)
    → x < 2 ^ 32
    → v < 2 ^ 8
    → raw (set x Clcw.report_mask v) ≡ record (raw x) { report = v }
raw-set_report x v h b =
    Raw_ext (omega (arith, set-field report-IsMask x v (omega arith) b (omega arith)))

pub set_version-lt : (x v : ℕ) → x < 2 ^ 32 → v < 2 ^ 2 → set x Clcw.version_mask v < 2 ^ 32
set_version-lt x v h b = omega (arith, set-field version-IsMask x v (omega arith) b (omega arith))

pub set_status-lt : (x v : ℕ) → x < 2 ^ 32 → v < 2 ^ 3 → set x Clcw.status_mask v < 2 ^ 32
set_status-lt x v h b = omega (arith, set-field status-IsMask x v (omega arith) b (omega arith))

pub set_cop-lt : (x v : ℕ) → x < 2 ^ 32 → v < 2 ^ 2 → set x Clcw.cop_mask v < 2 ^ 32
set_cop-lt x v h b = omega (arith, set-field cop-IsMask x v (omega arith) b (omega arith))

pub set_vcid-lt : (x v : ℕ) → x < 2 ^ 32 → v < 2 ^ 6 → set x Clcw.vcid_mask v < 2 ^ 32
set_vcid-lt x v h b = omega (arith, set-field vcid-IsMask x v (omega arith) b (omega arith))

pub set_no_rf-lt : (x v : ℕ) → x < 2 ^ 32 → v < 2 ^ 1 → set x Clcw.no_rf_mask v < 2 ^ 32
set_no_rf-lt x v h b = omega (arith, set-field no_rf-IsMask x v (omega arith) b (omega arith))

pub set_no_bit_lock-lt : (x v : ℕ) → x < 2 ^ 32 → v < 2 ^ 1 → set x Clcw.no_bit_lock_mask v < 2 ^ 32
set_no_bit_lock-lt x v h b =
    omega (arith, set-field no_bit_lock-IsMask x v (omega arith) b (omega arith))

pub set_lockout-lt : (x v : ℕ) → x < 2 ^ 32 → v < 2 ^ 1 → set x Clcw.lockout_mask v < 2 ^ 32
set_lockout-lt x v h b = omega (arith, set-field lockout-IsMask x v (omega arith) b (omega arith))

pub set_wait-lt : (x v : ℕ) → x < 2 ^ 32 → v < 2 ^ 1 → set x Clcw.wait_mask v < 2 ^ 32
set_wait-lt x v h b = omega (arith, set-field wait-IsMask x v (omega arith) b (omega arith))

pub set_retransmit-lt : (x v : ℕ) → x < 2 ^ 32 → v < 2 ^ 1 → set x Clcw.retransmit_mask v < 2 ^ 32
set_retransmit-lt x v h b =
    omega (arith, set-field retransmit-IsMask x v (omega arith) b (omega arith))

pub set_farm_b-lt : (x v : ℕ) → x < 2 ^ 32 → v < 2 ^ 2 → set x Clcw.farm_b_mask v < 2 ^ 32
set_farm_b-lt x v h b = omega (arith, set-field farm_b-IsMask x v (omega arith) b (omega arith))

pub set_report-lt : (x v : ℕ) → x < 2 ^ 32 → v < 2 ^ 8 → set x Clcw.report_mask v < 2 ^ 32
set_report-lt x v h b = omega (arith, set-field report-IsMask x v (omega arith) b (omega arith))
