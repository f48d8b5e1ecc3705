-- ===== src/Ivm/Partition.antt =====
-- `shareWork` cuts the victim's interval in two, the second part for the thief.
use pbbperm.Base.{ℕ, suc, ◌≤◌, ◌<◌, ◌≡◌, refl, ◌⊎◌, inl, inr, some, arith, dec_lt, ltb, true}
use pbbperm.Weights.Rank.{
  rank, rank-suc, rank_mono, rank_congr, IsPosition, IsPosition-of_room, IsPosition-room,
}
use pbbperm.Ivm.{Ivm, open_level, cut_at, share_work}
use pbbperm.Ivm.Share.{cutting_position-some, open_level_lem}

-- The interval of `v` is cut into those of `v'` and `t'`: nothing is lost and
-- nothing is in both. The thief has the victim's rows and directions down to its line.
pub record IsCut (v v' t' : Ivm) : Type 0 where
  pub begin : rank v.size 0 v'.pos_vect ≡ rank v.size 0 v.pos_vect
  pub keeps : rank v.size 0 v'.pos_vect ≤ rank v.size 0 v'.end_vect
  pub adjacent : suc (rank v.size 0 v'.end_vect) ≡ rank v.size 0 t'.pos_vect
  pub gains : rank v.size 0 t'.pos_vect ≤ rank v.size 0 t'.end_vect
  pub finish : rank v.size 0 t'.end_vect ≡ rank v.size 0 v.end_vect
  pub victim_end : IsPosition v.size 0 v'.end_vect
  pub thief_begin : IsPosition v.size 0 t'.pos_vect
  pub victim_rows : v'.job_mat ≡ v.job_mat
  pub victim_line : v'.line ≡ v.line
  pub thief_line : t'.line ≤ v.line
  pub thief_rows : (k i : ℕ) → k ≤ t'.line → i < v.size → t'.job_mat k i ≡ v.job_mat k i
  pub thief_dirs : (k : ℕ) → k ≤ t'.line → t'.dir_vect k ≡ v.dir_vect k

cut_at-IsCut :
    (l cut : ℕ) (v t : Ivm)
    → l ≤ v.line
    → v.line < v.size
    → ((i : ℕ) → i < l → v.pos_vect i ≡ v.end_vect i)
    → v.pos_vect l < cut
    → cut ≤ v.end_vect l
    → IsPosition v.size 0 v.pos_vect
    → IsPosition v.size 0 v.end_vect
    → IsCut v (cut_at l cut v t).0 (cut_at l cut v t).1
unfolding cut_at
cut_at-IsCut l cut v t hl hs same lo hi hp he =
    let p = λ (i : ℕ) (h : i < v.size).
      IsPosition-room v.size 0 i v.pos_vect hp (omega arith) (omega arith) in
    let e = λ (i : ℕ) (h : i < v.size).
      IsPosition-room v.size 0 i v.end_vect he (omega arith) (omega arith) in
    record {
      begin = refl;
      keeps = rank_mono v.size 0 _ _ (λ i lo' hi'. ground (arith, same i, p i));
      adjacent =
          rank-suc v.size 0 l _ _ (omega arith) (omega arith) (λ i lo' hi'. ground (arith, same i))
            (ground arith) (λ i lo' hi'. ground arith) (λ i lo' hi'. ground arith);
      gains = rank_mono v.size 0 _ _ (λ i lo' hi'. ground (arith, same i));
      finish = rank_congr v.size 0 _ _ (λ i lo' hi'. ground arith);
      victim_end = IsPosition-of_room v.size 0 _ (λ i lo' hi'. ground (arith, e i));
      thief_begin = IsPosition-of_room v.size 0 _ (λ i lo' hi'. ground (arith, p i, e i));
      victim_rows = refl;
      victim_line = refl;
      thief_line = hl;
      thief_rows = λ k i hk hi'. ground arith;
      thief_dirs = λ k hk. ground arith;
    }

-- Of an explorer with positions for its two ends and a line below its size, `shareWork` never exits. Where the open level has
-- no cell left to give, neither explorer changes; otherwise one interval is given away and the
-- victim's interval is cut between the two.
pub share_work-IsCut :
    (v t : Ivm)
    → v.line < v.size
    → IsPosition v.size 0 v.pos_vect
    → IsPosition v.size 0 v.end_vect
    → let l = open_level v.line 0 v in
      (v.end_vect l ≤ v.pos_vect l) × (share_work v t ≡ some (0, v, t))
      ⊎ (v.pos_vect l < v.end_vect l)
        × ((v' : Ivm) × (t' : Ivm) × (share_work v t ≡ some (1, v', t')) × IsCut v v' t')
unfolding share_work
share_work-IsCut v t hs hp he =
    let l = open_level v.line 0 v in
    let (_, hl, same) = open_level_lem v.line 0 v (omega arith) in
    elim (dec_lt (v.pos_vect l) (v.end_vect l)) [
      | no closed ↦ inl (omega arith, ground arith)
      | yes open' ↦
          let (c, e, lo, hi) =
            cutting_position-some v l open' (
              omega
                (arith, IsPosition-room v.size 0 l v.end_vect he (omega arith) (omega arith))) in
          let test : ltb (v.pos_vect l) (v.end_vect l) ≡ true = ground arith in
          inr (
            open',
            (
              (cut_at l c v t).0,
              (cut_at l c v t).1,
              rw (test, e) refl,
              cut_at-IsCut l c v t hl hs (λ i h. same i (omega arith) h) lo hi hp he,
            ),
          )
    ]
