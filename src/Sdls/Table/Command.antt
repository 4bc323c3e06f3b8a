-- ===== src/Sdls/Table/Command.antt =====
-- The operations of the table as commands
-- (crates/leodos-protocols/src/datalink/security/sdls/sa_mgmt.rs), and what each promises of the
-- association it names.
use leo_dos.Prelude.{ℕ, Option, none, some, if◌then◌else◌}
use leo_dos.Sdls.Association
use leo_dos.Sdls.Association.{
  ServiceType, Error, unknown_spi, duplicate_spi, invalid_sa_state, Result, ok, err, map_ok,
  ManagedSa, is_unkeyed,
}
use leo_dos.Sdls.Table.{SaTable}
use leo_dos.Sdls.Table

pub data SaCommand : Type 0 where
  create : (spi : ℕ) → ServiceType → SaCommand
  delete : (spi : ℕ) → SaCommand
  rekey : (spi : ℕ) → (key_id : ℕ) → SaCommand
  start : (spi : ℕ) → SaCommand
  stop : (spi : ℕ) → SaCommand
  expire : (spi : ℕ) → SaCommand
  set_arsn : (spi : ℕ) → (arsn : ℕ) → SaCommand

abbrev pub target : SaCommand → ℕ
target (create spi _) = spi
target (delete spi) = spi
target (rekey spi _) = spi
target (start spi) = spi
target (stop spi) = spi
target (expire spi) = spi
target (set_arsn spi _) = spi

abbrev pub apply : SaCommand → SaTable → Result SaTable
apply (create spi service_type) es = Table.create spi service_type es
apply (delete spi) es = Table.delete spi es
apply (rekey spi key_id) es = Table.rekey spi key_id es
apply (start spi) es = Table.start spi es
apply (stop spi) es = Table.stop spi es
apply (expire spi) es = Table.expire spi es
apply (set_arsn spi arsn) es = Table.set_arsn spi arsn es

-- An error leaves the table as it was.
abbrev pub outcome : SaTable → Result SaTable → SaTable
outcome es (ok es') = es'
outcome es (err _) = es

-- The step of one association that is there.
abbrev pub update : SaCommand → ManagedSa → Result ManagedSa
update (create spi _) e = err (duplicate_spi spi)
update (delete spi) e = ok e
update (rekey _ key_id) e = Association.rekey key_id e
update (start _) e = Association.start e
update (stop _) e = Association.stop e
update (expire _) e = Association.expire e
update (set_arsn _ arsn) e = ok (Association.set_arsn arsn e)

-- The contract: what a command makes of the association that its SPI names.
abbrev pub effect : SaCommand → Option ManagedSa → Result (Option ManagedSa)
effect (create spi service_type) none = map_ok some (Association.new spi service_type)
effect (delete spi) (some e) = if is_unkeyed e.state then ok none else err invalid_sa_state
effect c none = err (unknown_spi (target c))
effect c (some e) = map_ok some (update c e)
