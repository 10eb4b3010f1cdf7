-- ===== src/TailLatency/Tests.antt =====
-- Small batches on both queues, and instances of the theorems.
use real_time_system_project.Common.{
  u64_max, ◌≤◌, All, ◌<◌, ◌≡◌, refl, List, [], ◌∷◌, some, arith, All,
}
use real_time_system_project.Time.{Instant}
use real_time_system_project.Histogram.Sample.{samples}
use real_time_system_project.Metrics.{record_drift, record_jitter, snapshot}
use real_time_system_project.Metrics
use real_time_system_project.Ring
use real_time_system_project.Ring.{try_pop}
use real_time_system_project.Priority.{from_bot_flag}
use real_time_system_project.Async.Scheduler.{select}
use real_time_system_project.Threaded.Heap.ListHeap.{list_heap, pop_list}
use real_time_system_project.Threaded.Heap.{task_cmp}
use real_time_system_project.Threaded.PriorityQueue
use real_time_system_project.TailLatency.{
  batch_sizes, Move, take, finish, receive, Kernel, make_task, make_tasks, push_all, step, run,
  bench_kernel, async_result, threaded_result,
}
use real_time_system_project.TailLatency.Blocking.{blocking}
use real_time_system_project.TailLatency.Balance.{IsTimely}
use real_time_system_project.TailLatency.Lanes.{lanes}
use real_time_system_project.TailLatency.Kernels.{
  MeasuresAll, bench_async_kernel, bench_threaded_kernel, bench_kernels_measure,
}
use real_time_system_project.TailLatency.Progress.{GoesOn, bench_kernel_goes_on}

abbrev clock : List Instant
clock = 10 ∷ 11 ∷ 12 ∷ []

-- Two workers: the first finishes two tasks, the second the last one.
abbrev moves : List Move
moves =
    take 0
    ∷ take 1
    ∷ finish 0 20 21
    ∷ take 0
    ∷ finish 0 30 31
    ∷ receive
    ∷ finish 1 40 45
    ∷ receive
    ∷ take 0
    ∷ take 1
    ∷ []

-- The human, number 1, is served first, and waits nine nanoseconds.
async_run : bench_async_kernel samples clock 2 moves ≡ some (9, 30)
unfolding bench_async_kernel bench_threaded_kernel bench_kernel run step push_all make_tasks
    make_task from_bot_flag Ring.new Ring.push try_pop select record_drift record_jitter Metrics.new
    snapshot async_result
async_run = refl

threaded_run : bench_threaded_kernel samples list_heap clock 2 moves ≡ some (9, 30)
unfolding bench_async_kernel bench_threaded_kernel bench_kernel run step push_all make_tasks
    make_task from_bot_flag record_drift record_jitter Metrics.new snapshot threaded_result blocking
    PriorityQueue.new PriorityQueue.push PriorityQueue.pop pop_list task_cmp
threaded_run = refl

timely : All IsTimely moves
timely = (
  tt,
  (
    tt,
    (
      (omega arith, omega arith),
      (tt, ((omega arith, omega arith), (tt, ((omega arith, omega arith), (tt, (tt, (tt, tt))))))),
    ),
  ),
)

bench_kernel_goes_on_example :
    (k : Kernel (blocking list_heap) samples) × (bench_kernel
        (blocking list_heap)
        samples
        clock
        2
        moves
      ≡ some k)
    × GoesOn (blocking list_heap) samples k
bench_kernel_goes_on_example =
    bench_kernel_goes_on (blocking list_heap) samples clock 2 moves (omega arith) (omega arith)
      (omega arith) timely

bench_kernels_measure_example :
    MeasuresAll samples lanes clock 2 moves (9, 30)
    × MeasuresAll samples (blocking list_heap) clock 2 moves (9, 30)
bench_kernels_measure_example =
    bench_kernels_measure samples list_heap clock 2 moves moves (omega arith) (omega arith)
      (omega arith) timely timely async_run threaded_run

sizes_fit : All (λ n. (0 < n) × (n ≤ u64_max)) batch_sizes
sizes_fit =
    ((omega arith, omega arith), ((omega arith, omega arith), ((omega arith, omega arith), tt)))
