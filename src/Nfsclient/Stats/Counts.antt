-- ===== src/Nfsclient/Stats/Counts.antt =====
-- That the totals of src/nfsv3/nfs3stat.c agree with its table.
use unfsclient.Prelude.{
  ℕ, ◌∷◌, arith, sum, List, ok, ◌+◌, length, ◌>>=◌, Result, refl, [], ◌≡◌, ◌<◌, zero, suc, ap, ◌∙◌,
  ◌==◌, if◌then◌else◌, All, inl, Bool, true, inr, replicate, subst, some, Bool-cases, ◌&&◌, false,
}
use unfsclient.Nfsclient.Stats.{
  nfsstat_update_status_counter, u64, nfsstat_update_ops_per_sec, nfsstat_update_packet_counter,
  nfsstat_update_response_times, Timeval, Row, NfsstatCtx, update_row, response_time, count_status,
  count_total, add_restime, nfsstat_init,
}

-- The updates, as a program makes them one after another.
pub data Update : Type 0 where
  packet : ℕ → Update
  status_of : ℕ → ℕ → Update
  frame : Timeval → Update
  times : ℕ → Timeval → Timeval → Update

unfoldable pub update : NfsstatCtx → Update → Result NfsstatCtx
update stats (packet p) = nfsstat_update_packet_counter stats p
update stats (status_of p s) = nfsstat_update_status_counter stats p s
update stats (frame t) = ok (nfsstat_update_ops_per_sec stats t)
update stats (times p c r) = nfsstat_update_response_times stats p c r

unfoldable pub update_all : NfsstatCtx → List Update → Result NfsstatCtx
unfolding update
update_all stats [] = ok stats
update_all stats (u ∷ us) = update stats u >>= λ stats'. update_all stats' us

-- The update names one of the 22 procedures.
abbrev pub OfProc : Update → Type 0
OfProc (packet p) = p < 22
OfProc (status_of p s) = p < 22
OfProc (frame t) = Unit {0}
OfProc (times p c r) = p < 22

abbrev total : Row → ℕ
total r = r.col_total

abbrev restime : Row → ℕ
restime r = r.col_restime

pub record IsCounted (stats : NfsstatCtx) : Type 0 where
  pub rows : length stats.proc_pkt_count ≡ 22
  pub packets : stats.packet_count ≡ u64 (sum (λ r. r.col_total) stats.proc_pkt_count)
  pub usecs : stats.restime_usecs ≡ u64 (sum (λ r. r.col_restime) stats.proc_pkt_count)

-- A row that is replaced, and what becomes of a sum over the rows.
update_row_lem :
    (f : Row → Row) (n : ℕ) (l : List Row)
    → n < length l
    → (old : Row) × (l' : List Row) × (update_row f n l ≡ ok l')
      × (length l' ≡ length l)
      × ((w : Row → ℕ) → sum w l' + w old ≡ sum w l + w (f old))
unfolding update_row
update_row_lem f n [] h = absurd (omega arith)
update_row_lem f zero (r ∷ l) h = (r, f r ∷ l, refl, refl, λ w. omega arith)
update_row_lem f (suc n) (r ∷ l) h =
    let (old, l', e, len, s) = update_row_lem f n l (omega arith) in
    (old, r ∷ l', rw e refl, ap suc len, λ w. omega (arith, s w))

-- What neither branch of count_status touches.
count_status_keeps :
    (w : Row → ℕ)
    → ((r : Row) → w (record r { col_success = u64 (r.col_success + 1) }) ≡ w r)
    → ((r : Row) → w (record r { col_failed = u64 (r.col_failed + 1) }) ≡ w r)
    → (status : ℕ) (r : Row) → w (count_status status r) ≡ w r
unfolding count_status
count_status_keeps w on_success on_failed status r = elim (Bool-cases (status == 0)) [
  | inl fine ↦ rw fine (on_success r)
  | inr bad ↦ rw bad (on_failed r)
]

either-IsCounted :
    (b : Bool) (x y : NfsstatCtx) → IsCounted x → IsCounted y → IsCounted (if b then x else y)
either-IsCounted true x y cx cy = cx
either-IsCounted false x y cx cy = cy

frame-IsCounted :
    (stats : NfsstatCtx) (t : Timeval)
    → IsCounted stats
    → IsCounted (nfsstat_update_ops_per_sec stats t)
unfolding nfsstat_update_ops_per_sec
frame-IsCounted stats t c =
    either-IsCounted (stats.starttime.tv_sec == 0 && stats.starttime.tv_usec == 0)
      (record stats { starttime = t }) (record stats { endtime = t })
      (record { rows = c.rows; packets = c.packets; usecs = c.usecs })
      (record { rows = c.rows; packets = c.packets; usecs = c.usecs })

Keeps : Result NfsstatCtx → Type 0
Keeps r = (stats' : NfsstatCtx) × (r ≡ ok stats') × IsCounted stats'

update-Keeps :
    (stats : NfsstatCtx) (u : Update) → OfProc u → IsCounted stats → Keeps (update stats u)
unfolding update Keeps nfsstat_update_packet_counter nfsstat_update_status_counter
    nfsstat_update_response_times nfsstat_update_ops_per_sec count_total count_status add_restime
update-Keeps stats (packet p) h c =
    let (old, l', e, len, s) =
      update_row_lem count_total p stats.proc_pkt_count (omega (arith, h, c.rows)) in
    (
      record stats { packet_count = u64 (stats.packet_count + 1); proc_pkt_count = l' },
      rw e refl,
      record {
        rows = len ∙ c.rows;
        packets = omega (arith, c.packets, s total);
        usecs = omega (arith, c.usecs, s restime);
      },
    )
update-Keeps stats (status_of p st) h c =
    let (old, l', e, len, s) =
      update_row_lem (count_status st) p stats.proc_pkt_count (omega (arith, h, c.rows)) in
    (
      record stats { proc_pkt_count = l' },
      rw e refl,
      record {
        rows = len ∙ c.rows;
        packets =
            omega
              (arith, c.packets, s total, count_status_keeps total (λ r. refl) (λ r. refl) st old);
        usecs =
            omega (
              arith,
              c.usecs,
              s restime,
              count_status_keeps restime (λ r. refl) (λ r. refl) st old,
            );
      },
    )
update-Keeps stats (frame t) h c =
    (nfsstat_update_ops_per_sec stats t, refl, frame-IsCounted stats t c)
update-Keeps stats (times p call reply) h c =
    let d = response_time call reply in
    let (old, l', e, len, s) =
      update_row_lem (add_restime d) p stats.proc_pkt_count (omega (arith, h, c.rows)) in
    (
      record stats {
        restime_usecs = u64 (stats.restime_usecs + d);
        restime_packet_count = u64 (stats.restime_packet_count + 1);
        proc_pkt_count = l';
      },
      rw e refl,
      record {
        rows = len ∙ c.rows;
        packets = omega (arith, c.packets, s total);
        usecs = omega (arith, c.usecs, s restime);
      },
    )

update_all-Keeps :
    (stats : NfsstatCtx) (us : List Update)
    → All OfProc us
    → IsCounted stats
    → Keeps (update_all stats us)
unfolding update_all Keeps
update_all-Keeps stats [] h c = (stats, refl, c)
update_all-Keeps stats (u ∷ us) h c =
    let (stats1, e1, c1) = update-Keeps stats u h.0 c in
    let (stats2, e2, c2) = update_all-Keeps stats1 us h.1 c1 in (stats2, rw e1 e2, c2)

-- From what nfsstat_init makes, any sequence of updates for the 22 procedures comes to an end
-- without undefined behaviour; and then the count of packets is the sum of the table's totals, and
-- the response time the sum of the table's response times, both as words of 64 bits.
pub nfsstat_init-update_all :
    (stats : NfsstatCtx) (us : List Update)
    → nfsstat_init true ≡ some stats
    → All OfProc us
    → (stats' : NfsstatCtx) × (update_all stats us ≡ ok stats')
      × (stats'.packet_count ≡ u64 (sum (λ r. r.col_total) stats'.proc_pkt_count))
      × (stats'.restime_usecs ≡ u64 (sum (λ r. r.col_restime) stats'.proc_pkt_count))
unfolding nfsstat_init Keeps
nfsstat_init-update_all stats us e h =
    let start : NfsstatCtx = record {
      packet_count = 0;
      proc_pkt_count =
          replicate 22 (record { col_total = 0; col_success = 0; col_failed = 0; col_restime = 0 });
      starttime = record { tv_sec = 0; tv_usec = 0 };
      endtime = record { tv_sec = 0; tv_usec = 0 };
      restime_packet_count = 0;
      restime_usecs = 0;
    } in
    let same : start ≡ stats = cc in
    let (stats', done, c) =
      update_all-Keeps stats us h
        (subst IsCounted same (record { rows = refl; packets = refl; usecs = refl })) in
    (stats', done, c.packets, c.usecs)
