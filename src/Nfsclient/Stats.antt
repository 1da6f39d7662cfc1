-- ===== src/Nfsclient/Stats.antt =====
-- The statistics of src/nfsv3/nfs3stat.c. Each function returns at once for a context that is NULL;
-- here the context is there.
pub mod Counts
use unfsclient.Prelude.{
  ℕ, ◌^◌, Bool, some, Option, ◌∷◌, [], suc, true, ◌%◌, false, zero, ◌&&◌, Result, ◌==◌, ◌*◌, ok,
  fault, none, ◌-◌, List, ◌+◌, if◌then◌else◌, replicate, ◌>>=◌,
}

-- One row of proc_pkt_count: its four columns, of type u_int64_t.
pub record Row : Type 0 where
  pub col_total : ℕ
  pub col_success : ℕ
  pub col_failed : ℕ
  pub col_restime : ℕ

pub record Timeval : Type 0 where
  pub tv_sec : ℕ
  pub tv_usec : ℕ

-- The file and the telemetry switch only matter to what is printed.
pub record NfsstatCtx : Type 0 where
  pub packet_count : ℕ
  pub proc_pkt_count : List Row
  pub starttime : Timeval
  pub endtime : Timeval
  pub restime_packet_count : ℕ
  pub restime_usecs : ℕ

abbrev pub u64 : ℕ → ℕ
u64 n = n % 2 ^ 64

-- The row of a procedure; outside the table it is undefined behaviour.
unfoldable pub update_row : (Row → Row) → ℕ → List Row → Result (List Row)
update_row f n [] = fault
update_row f zero (r ∷ rows) = ok (f r ∷ rows)
update_row f (suc n) (r ∷ rows) = update_row f n rows >>= λ rows'. ok (r ∷ rows')

unfoldable pub timeval_to_usecs : Timeval → ℕ
timeval_to_usecs ts = u64 (ts.tv_sec * 1000000 + ts.tv_usec)

-- `none` is NULL: when there is no memory.
unfoldable pub nfsstat_init : Bool → Option NfsstatCtx
nfsstat_init false = none
nfsstat_init true = some (record {
  packet_count = 0;
  proc_pkt_count =
      replicate 22 (record { col_total = 0; col_success = 0; col_failed = 0; col_restime = 0 });
  starttime = record { tv_sec = 0; tv_usec = 0 };
  endtime = record { tv_sec = 0; tv_usec = 0 };
  restime_packet_count = 0;
  restime_usecs = 0;
})

unfoldable pub count_total : Row → Row
count_total r = record r { col_total = u64 (r.col_total + 1) }

-- NFS3_OK is 0.
unfoldable pub count_status : ℕ → Row → Row
count_status status r =
    if status == 0
    then record r { col_success = u64 (r.col_success + 1) }
    else record r { col_failed = u64 (r.col_failed + 1) }

unfoldable pub add_restime : ℕ → Row → Row
add_restime usecs r = record r { col_restime = u64 (r.col_restime + usecs) }

unfoldable pub nfsstat_update_packet_counter : NfsstatCtx → ℕ → Result NfsstatCtx
unfolding update_row count_total
nfsstat_update_packet_counter stats procval =
    update_row count_total procval stats.proc_pkt_count >>= λ rows.
    ok (record stats { packet_count = u64 (stats.packet_count + 1); proc_pkt_count = rows })

unfoldable pub nfsstat_update_status_counter : NfsstatCtx → ℕ → ℕ → Result NfsstatCtx
unfolding update_row count_status
nfsstat_update_status_counter stats procval status =
    update_row (count_status status) procval stats.proc_pkt_count >>= λ rows.
    ok (record stats { proc_pkt_count = rows })

unfoldable pub nfsstat_update_ops_per_sec : NfsstatCtx → Timeval → NfsstatCtx
nfsstat_update_ops_per_sec stats frametime =
    if stats.starttime.tv_sec == 0 && stats.starttime.tv_usec == 0
    then record stats { starttime = frametime }
    else record stats { endtime = frametime }

-- `rt - ct` on u_int64_t.
unfoldable pub response_time : Timeval → Timeval → ℕ
unfolding timeval_to_usecs
response_time call reply = u64 (timeval_to_usecs reply + 2 ^ 64 - timeval_to_usecs call)

unfoldable pub nfsstat_update_response_times :
    NfsstatCtx → ℕ → Timeval → Timeval → Result NfsstatCtx
unfolding update_row add_restime response_time
nfsstat_update_response_times stats procval call reply =
    update_row (add_restime (response_time call reply)) procval stats.proc_pkt_count >>= λ rows.
    ok (record stats {
      restime_usecs = u64 (stats.restime_usecs + response_time call reply);
      restime_packet_count = u64 (stats.restime_packet_count + 1);
      proc_pkt_count = rows;
    })
