-- ===== src/Cop1/Clcw/View.antt =====
-- What a control word says, field by field, and what a write does to that.
use leo_dos.Prelude.{
  ℕ, ◌%◌, ◌^◌, ◌<◌, ◌≡◌, refl, ◌∙◌, ap, List, [], ◌∷◌, All, Bool, true, false, ◌==◌, not, arith,
}
use leo_dos.Prelude.Bits.{bit_and_three}
use leo_dos.Cop1.Clcw
use leo_dos.Cop1.Clcw.{Clcw}
use leo_dos.Cop1.Clcw.Raw.{
  Raw, raw, set_version-lt, set_status-lt, set_cop-lt, set_vcid-lt, set_no_rf-lt,
  set_no_bit_lock-lt, set_lockout-lt, set_wait-lt, set_retransmit-lt, set_farm_b-lt, set_report-lt,
  raw-set_version, raw-set_status, raw-set_cop, raw-set_vcid, raw-set_no_rf, raw-set_no_bit_lock,
  raw-set_lockout, raw-set_wait, raw-set_retransmit, raw-set_farm_b, raw-set_report,
}
use leo_dos.Cop1.Clcw.Fields.{
  get-field, type-IsMask, version-IsMask, status-IsMask, cop-IsMask, vcid-IsMask, no_rf-IsMask,
  no_bit_lock-IsMask, lockout-IsMask, wait-IsMask, retransmit-IsMask, farm_b-IsMask, report-IsMask,
}

pub record View : Type 0 where
  pub control_word_type : ℕ
  pub version : ℕ
  pub status : ℕ
  pub cop_in_effect : ℕ
  pub vcid : ℕ
  pub no_rf_available : Bool
  pub no_bit_lock : Bool
  pub lockout : Bool
  pub wait : Bool
  pub retransmit : Bool
  pub farm_b_counter : ℕ
  pub report_value : ℕ

-- All the reading methods at once.
unfoldable pub view : Clcw → View
view c = record {
  control_word_type = Clcw.control_word_type c;
  version = Clcw.version c;
  status = Clcw.status c;
  cop_in_effect = Clcw.cop_in_effect c;
  vcid = Clcw.vcid c;
  no_rf_available = Clcw.no_rf_available c;
  no_bit_lock = Clcw.no_bit_lock c;
  lockout = Clcw.lockout c;
  wait = Clcw.wait c;
  retransmit = Clcw.retransmit c;
  farm_b_counter = Clcw.farm_b_counter c;
  report_value = Clcw.report_value c;
}

-- The same from the fields as numbers.
abbrev pub decode : Raw → View
decode r = record {
  control_word_type = r.kind % 256;
  version = r.version % 256;
  status = r.status % 256;
  cop_in_effect = r.cop % 256;
  vcid = r.vcid;
  no_rf_available = not (r.no_rf == 0);
  no_bit_lock = not (r.no_bit_lock == 0);
  lockout = not (r.lockout == 0);
  wait = not (r.wait == 0);
  retransmit = not (r.retransmit == 0);
  farm_b_counter = r.farm_b % 256;
  report_value = r.report % 256;
}

pub view-eq-decode : (c : Clcw) → view c ≡ decode (raw c.word)
unfolding view Clcw.control_word_type Clcw.version Clcw.status Clcw.cop_in_effect Clcw.vcid
    Clcw.no_rf_available Clcw.no_bit_lock Clcw.lockout Clcw.wait Clcw.retransmit Clcw.farm_b_counter
    Clcw.report_value
view-eq-decode c = rw (
  get-field type-IsMask c.word,
  get-field version-IsMask c.word,
  get-field status-IsMask c.word,
  get-field cop-IsMask c.word,
  get-field vcid-IsMask c.word,
  get-field no_rf-IsMask c.word,
  get-field no_bit_lock-IsMask c.word,
  get-field lockout-IsMask c.word,
  get-field wait-IsMask c.word,
  get-field retransmit-IsMask c.word,
  get-field farm_b-IsMask c.word,
  get-field report-IsMask c.word,
)

-- A call of a writing method.
pub data Write : Type 0 where
  version : ℕ → Write
  status : ℕ → Write
  cop_in_effect : ℕ → Write
  vcid : ℕ → Write
  no_rf_available : Bool → Write
  no_bit_lock : Bool → Write
  lockout : Bool → Write
  wait : Bool → Write
  retransmit : Bool → Write
  farm_b_counter : ℕ → Write
  report_value : ℕ → Write

unfoldable pub write : Write → Clcw → Clcw
write (Write.version v) c = Clcw.set_version c v
write (Write.status v) c = Clcw.set_status c v
write (Write.cop_in_effect v) c = Clcw.set_cop_in_effect c v
write (Write.vcid v) c = Clcw.set_vcid c v
write (Write.no_rf_available v) c = Clcw.set_no_rf_available c v
write (Write.no_bit_lock v) c = Clcw.set_no_bit_lock c v
write (Write.lockout v) c = Clcw.set_lockout c v
write (Write.wait v) c = Clcw.set_wait c v
write (Write.retransmit v) c = Clcw.set_retransmit c v
write (Write.farm_b_counter v) c = Clcw.set_farm_b_counter c v
write (Write.report_value v) c = Clcw.set_report_value c v

-- The value that is written fits into its field. `set_farm_b_counter` cuts its argument to two bits.
abbrev pub Fits : Write → Type 0
Fits (Write.version v) = v < 2 ^ 2
Fits (Write.status v) = v < 2 ^ 3
Fits (Write.cop_in_effect v) = v < 2 ^ 2
Fits (Write.vcid v) = v < 2 ^ 6
Fits (Write.no_rf_available v) = Unit
Fits (Write.no_bit_lock v) = Unit
Fits (Write.lockout v) = Unit
Fits (Write.wait v) = Unit
Fits (Write.retransmit v) = Unit
Fits (Write.farm_b_counter v) = Unit
Fits (Write.report_value v) = v < 2 ^ 8

abbrev pub update : Write → View → View
update (Write.version v) r = record r { version = v }
update (Write.status v) r = record r { status = v }
update (Write.cop_in_effect v) r = record r { cop_in_effect = v }
update (Write.vcid v) r = record r { vcid = v }
update (Write.no_rf_available v) r = record r { no_rf_available = v }
update (Write.no_bit_lock v) r = record r { no_bit_lock = v }
update (Write.lockout v) r = record r { lockout = v }
update (Write.wait v) r = record r { wait = v }
update (Write.retransmit v) r = record r { retransmit = v }
update (Write.farm_b_counter v) r = record r { farm_b_counter = v % 4 }
update (Write.report_value v) r = record r { report_value = v }

byte : (v : ℕ) → v < 256 → v % 256 ≡ v
byte v h = omega arith

-- A write of a fitting value to a 32-bit word is what the word's reading methods then return, and
-- every other reading method returns what it did.
pub view-write :
    (w : Write) (c : Clcw) → c.word < 2 ^ 32 → Fits w → view (write w c) ≡ update w (view c)
unfolding write Clcw.set_version Clcw.set_status Clcw.set_cop_in_effect Clcw.set_vcid
    Clcw.set_no_rf_available Clcw.set_no_bit_lock Clcw.set_lockout Clcw.set_wait Clcw.set_retransmit
    Clcw.set_farm_b_counter Clcw.set_report_value
view-write (Write.version v) c h fits =
    view-eq-decode _
    ∙ ap decode (raw-set_version c.word v h fits)
    ∙ rw (view-eq-decode c, byte v (omega arith))
view-write (Write.status v) c h fits =
    view-eq-decode _
    ∙ ap decode (raw-set_status c.word v h fits)
    ∙ rw (view-eq-decode c, byte v (omega arith))
view-write (Write.cop_in_effect v) c h fits =
    view-eq-decode _
    ∙ ap decode (raw-set_cop c.word v h fits)
    ∙ rw (view-eq-decode c, byte v (omega arith))
view-write (Write.vcid v) c h fits =
    view-eq-decode _ ∙ ap decode (raw-set_vcid c.word v h fits) ∙ rw (view-eq-decode c)
view-write (Write.no_rf_available true) c h fits =
    view-eq-decode _ ∙ ap decode (raw-set_no_rf c.word 1 h (omega arith)) ∙ rw (view-eq-decode c)
view-write (Write.no_rf_available false) c h fits =
    view-eq-decode _ ∙ ap decode (raw-set_no_rf c.word 0 h (omega arith)) ∙ rw (view-eq-decode c)
view-write (Write.no_bit_lock true) c h fits =
    view-eq-decode _
    ∙ ap decode (raw-set_no_bit_lock c.word 1 h (omega arith))
    ∙ rw (view-eq-decode c)
view-write (Write.no_bit_lock false) c h fits =
    view-eq-decode _
    ∙ ap decode (raw-set_no_bit_lock c.word 0 h (omega arith))
    ∙ rw (view-eq-decode c)
view-write (Write.lockout true) c h fits =
    view-eq-decode _ ∙ ap decode (raw-set_lockout c.word 1 h (omega arith)) ∙ rw (view-eq-decode c)
view-write (Write.lockout false) c h fits =
    view-eq-decode _ ∙ ap decode (raw-set_lockout c.word 0 h (omega arith)) ∙ rw (view-eq-decode c)
view-write (Write.wait true) c h fits =
    view-eq-decode _ ∙ ap decode (raw-set_wait c.word 1 h (omega arith)) ∙ rw (view-eq-decode c)
view-write (Write.wait false) c h fits =
    view-eq-decode _ ∙ ap decode (raw-set_wait c.word 0 h (omega arith)) ∙ rw (view-eq-decode c)
view-write (Write.retransmit true) c h fits =
    view-eq-decode _
    ∙ ap decode (raw-set_retransmit c.word 1 h (omega arith))
    ∙ rw (view-eq-decode c)
view-write (Write.retransmit false) c h fits =
    view-eq-decode _
    ∙ ap decode (raw-set_retransmit c.word 0 h (omega arith))
    ∙ rw (view-eq-decode c)
view-write (Write.farm_b_counter v) c h fits = rw bit_and_three (
    view-eq-decode _
    ∙ ap decode (raw-set_farm_b c.word (v % 4) h (omega arith))
    ∙ rw (view-eq-decode c, byte (v % 4) (omega arith)))
view-write (Write.report_value v) c h fits =
    view-eq-decode _
    ∙ ap decode (raw-set_report c.word v h fits)
    ∙ rw (view-eq-decode c, byte v (omega arith))

-- A write of a fitting value leaves a 32-bit word.
pub write-lt : (w : Write) (c : Clcw) → c.word < 2 ^ 32 → Fits w → (write w c).word < 2 ^ 32
unfolding write Clcw.set_version Clcw.set_status Clcw.set_cop_in_effect Clcw.set_vcid
    Clcw.set_no_rf_available Clcw.set_no_bit_lock Clcw.set_lockout Clcw.set_wait Clcw.set_retransmit
    Clcw.set_farm_b_counter Clcw.set_report_value
write-lt (Write.version v) c h fits = set_version-lt c.word v h fits
write-lt (Write.status v) c h fits = set_status-lt c.word v h fits
write-lt (Write.cop_in_effect v) c h fits = set_cop-lt c.word v h fits
write-lt (Write.vcid v) c h fits = set_vcid-lt c.word v h fits
write-lt (Write.no_rf_available true) c h fits = set_no_rf-lt c.word 1 h (omega arith)
write-lt (Write.no_rf_available false) c h fits = set_no_rf-lt c.word 0 h (omega arith)
write-lt (Write.no_bit_lock true) c h fits = set_no_bit_lock-lt c.word 1 h (omega arith)
write-lt (Write.no_bit_lock false) c h fits = set_no_bit_lock-lt c.word 0 h (omega arith)
write-lt (Write.lockout true) c h fits = set_lockout-lt c.word 1 h (omega arith)
write-lt (Write.lockout false) c h fits = set_lockout-lt c.word 0 h (omega arith)
write-lt (Write.wait true) c h fits = set_wait-lt c.word 1 h (omega arith)
write-lt (Write.wait false) c h fits = set_wait-lt c.word 0 h (omega arith)
write-lt (Write.retransmit true) c h fits = set_retransmit-lt c.word 1 h (omega arith)
write-lt (Write.retransmit false) c h fits = set_retransmit-lt c.word 0 h (omega arith)
write-lt (Write.farm_b_counter v) c h fits =
    rw bit_and_three (set_farm_b-lt c.word (v % 4) h (omega arith))
write-lt (Write.report_value v) c h fits = set_report-lt c.word v h fits

-- Several writes in a row.
abbrev pub writes : List Write → Clcw → Clcw
writes [] c = c
writes (w ∷ ws) c = writes ws (write w c)

abbrev pub updates : List Write → View → View
updates [] r = r
updates (w ∷ ws) r = updates ws (update w r)

pub view-writes :
    (ws : List Write) (c : Clcw)
    → c.word < 2 ^ 32
    → All Fits ws
    → view (writes ws c) ≡ updates ws (view c)
view-writes [] c h fits = refl
view-writes (w ∷ ws) c h fits =
    view-writes ws (write w c) (write-lt w c h fits.0) fits.1
    ∙ ap (updates ws) (view-write w c h fits.0)
