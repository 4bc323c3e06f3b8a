-- ===== src/Rice/ZeroRuns.antt =====
-- Runs of zero blocks and the segments that end them
-- (crates/leodos-protocols/src/application/compression/rice.rs).
use native.Mathlib.Nat.{mod-eq_of_lt, add-mul-mod_self_right, div-add-mod', mod-lt}
use mathlib.Core.Path.{subst}
use leo_dos.Prelude.{
  ℕ, zero, suc, ◌+◌, ◌-◌, ◌*◌, ◌/◌, ◌%◌, ◌^◌, ◌≤◌, ◌<◌, min, ◌≡◌, refl, sym, ap, ◌∙◌, inl, inr,
  Bool, true, false, ◌&&◌, arith, ltb, ◌==◌, if◌then◌else◌, ltb→lt, ==_iff, ==_ne, Bool-cases,
  length,
}
use leo_dos.Rice.Config.{Config, Outcome, done, panicked, ◌>>=◌}
use leo_dos.Rice.Encoder.{reference_block, seg_size, next_segment}
use leo_dos.Rice.Decoder.{Decoding, zero_blocks, zero_samples, put_block}

-- The last block of a run comes behind the others, and only a run of one may start with it.
zero_blocks-last :
    (cfg : Config) (len z : ℕ) (f : Bool) (v : ℕ) (d : Decoding)
    → zero_blocks cfg len (suc z) f v d
      ≡ (zero_blocks cfg len z f v d >>= zero_blocks cfg len 1 (f && (z == 0)) v)
unfolding zero_blocks
zero_blocks-last cfg len zero true v d = refl
zero_blocks-last cfg len zero false v d = refl
zero_blocks-last cfg len (suc z) f v d =
    let d' : Decoding = put_block cfg (zero_samples cfg f v d.prev_sample) d in
    by_room (ltb len (length d.out + cfg.block_size)) (zero_blocks cfg len (suc z) false v d')
      (zero_blocks cfg len z false v d') (zero_blocks cfg len 1 (f && (suc z == 0)) v)
      (zero_blocks-last cfg len z false v d'
        ∙ ap (λ b. zero_blocks cfg len z false v d' >>= zero_blocks cfg len 1 b v) (never f))
  where
    never : (f : Bool) → false ≡ (f && (suc z == 0))
    never true = sym (==_ne (suc z) 0 (λ e. omega (arith, e)))
    never false = refl

    by_room :
        (b : Bool) (m m' : Outcome Decoding) (k : Decoding → Outcome Decoding)
        → m ≡ (m' >>= k)
        → elim b [ true ↦ panicked | false ↦ m ] ≡ (elim b [ true ↦ panicked | false ↦ m' ] >>= k)
    by_room true m m' k e = refl
    by_room false m m' k e = e

-- One block more fits.
pub zero_blocks-more :
    (cfg : Config) (len z : ℕ) (f : Bool) (v : ℕ) (d d' : Decoding)
    → zero_blocks cfg len z f v d ≡ done d'
    → length d'.out + cfg.block_size ≤ len
    → zero_blocks cfg len (z + 1) f v d
      ≡ done (put_block cfg (zero_samples cfg (f && (z == 0)) v d'.prev_sample) d')
unfolding zero_blocks
zero_blocks-more cfg len z f v d d' e h =
    let index : z + 1 ≡ suc z = omega arith in
    let room : ltb len (length d'.out + cfg.block_size) ≡ false = ground arith in
    ap (λ n. zero_blocks cfg len n f v d) index
    ∙ zero_blocks-last cfg len z f v d
    ∙ ap (λ o. o >>= zero_blocks cfg len 1 (f && (z == 0)) v) e
    ∙ rw (room, zero_blocks) refl

next_mod : (a r : ℕ) → a % r + 1 < r → (a + 1) % r ≡ a % r + 1
next_mod a r h =
    ap (λ n. n % r) (apart (a / r * r) (a % r) a (div-add-mod' a r))
    ∙ add-mul-mod_self_right (a % r + 1) (a / r) r
    ∙ mod-eq_of_lt h
  where
    apart : (q m a : ℕ) → q + m ≡ a → a + 1 ≡ m + 1 + q
    apart q m a e = omega arith

-- The blocks that are left of a segment end before the next reference block.
pub record Segment (cfg : Config) (blk seg : ℕ) : Type 0 where
  pub one : 1 ≤ seg
  pub short : seg ≤ 64
  pub inside : 0 < cfg.ref_interval → blk % cfg.ref_interval + seg ≤ cfg.ref_interval

pub seg_size-Segment : (cfg : Config) (blk : ℕ) → blk < 2 ^ 32 → Segment cfg blk (seg_size cfg blk)
unfolding seg_size
seg_size-Segment cfg blk h = elim (Bool-cases (cfg.ref_interval == 0)) [
  | inl e ↦ subst (Segment cfg blk) (sym (ap (λ b. if b then 64 else in_interval) e)) (record {
    one = omega arith;
    short = omega arith;
    inside = λ p. absurd (omega (arith, (==_iff _ 0).0 e, p));
  })
  | inr e ↦
      subst (Segment cfg blk) (sym (ap (λ b. if b then 64 else in_interval) e))
        (positive (ground (arith, e)))
]
  where
    in_interval : ℕ
    in_interval = min (cfg.ref_interval - blk % 2 ^ 32 % cfg.ref_interval) 64

    positive : 0 < cfg.ref_interval → Segment cfg blk in_interval
    positive p =
        let same : blk % 2 ^ 32 % cfg.ref_interval ≡ blk % cfg.ref_interval =
          ap (λ b. b % cfg.ref_interval) (mod-eq_of_lt h) in
        let below : blk % cfg.ref_interval < cfg.ref_interval = mod-lt blk p in
        record {
          one = omega (arith, same, below);
          short = omega arith;
          inside = λ q. omega (arith, same, below);
        }

pub next_segment-Segment :
    (cfg : Config) (blk seg : ℕ)
    → blk + 1 < 2 ^ 32
    → Segment cfg blk seg
    → Segment cfg (blk + 1) (next_segment cfg blk (seg - 1))
unfolding next_segment
next_segment-Segment cfg blk seg h s = elim (Bool-cases (seg - 1 == 0)) [
  | inl e ↦ rw e (seg_size-Segment cfg (blk + 1) h)
  | inr e ↦ rw e (further (ground (arith, e)))
]
  where
    further : 2 ≤ seg → Segment cfg (blk + 1) (seg - 1)
    further l = record {
      one = omega arith;
      short = omega (arith, s.short);
      inside = λ p.
          let bound : blk % cfg.ref_interval + seg ≤ cfg.ref_interval = s.inside p in
          omega (arith, bound, next_mod blk cfg.ref_interval (omega (arith, bound, l)));
    }

-- Inside a segment there is no reference block.
pub inside-not-reference :
    (cfg : Config) (blk seg : ℕ)
    → Segment cfg blk seg
    → 2 ≤ seg
    → reference_block cfg (blk + 1) ≡ false
unfolding reference_block
inside-not-reference cfg blk seg s h = by_case cfg.preprocessor (ltb 0 cfg.ref_interval) refl
  where
    behind : 0 < cfg.ref_interval → ((blk + 1) % cfg.ref_interval == 0) ≡ false
    behind p =
        let bound : blk % cfg.ref_interval + seg ≤ cfg.ref_interval = s.inside p in
        let next : (blk + 1) % cfg.ref_interval ≡ blk % cfg.ref_interval + 1 =
          next_mod blk cfg.ref_interval (omega (arith, bound, h)) in
        ==_ne _ 0 (λ e. omega (arith, next, e))

    by_case :
        (p q : Bool)
        → ltb 0 cfg.ref_interval ≡ q
        → (p && (q && ((blk + 1) % cfg.ref_interval == 0))) ≡ false
    by_case false q e = refl
    by_case true false e = refl
    by_case true true e = behind (ltb→lt 0 cfg.ref_interval e)
