-- ===== src/EventLoop/Threads.antt =====
-- anonymBE/src/sgxserver_bootstrap.cpp: `main` and the threads that serve the descriptors of the queue. The steps
-- of the loop and of the threads may come in any order.
use anonym_sharing.Base.{
  ℕ, zero, ◌==◌, ◌<◌, String, Bool, true, List, [], ◌∷◌, ◌++◌, Option, none, some, ℤ, pos, ◌≡◌, All,
  if◌then◌else◌,
}
use anonym_sharing.Tls.{Read}
use anonym_sharing.EventLoop.{
  Ecalls, Flow, continues, exits, SocketEventLoop, Answers, Event, on_events, start_loop, contains,
}

-- The process: the loop, the enclave, what each of the threads serves, and the history of what they
-- took from the queue.
pub record Process (E : Type 0) : Type 0 where
  pub loop : SocketEventLoop
  pub enclave : E
  pub serving : ℕ → Option ℕ
  pub taken : List ℕ

-- After `main` has started its threads, which have nothing to serve yet.
abbrev pub idle : {E : Type 0} → SocketEventLoop → E → Process E
idle l e = record { loop = l; enclave = e; serving = λ i. none; taken = [] }

-- if (ret) return 2;
unfoldable pub begin : {E : Type 0} → Flow SocketEventLoop → ℤ × E → Flow (Process E)
begin started (pos zero, e) = elim started [
  | exits c ↦ exits c
  | continues l ↦ continues (idle l e)
]
begin started (_, e) = exits 2

-- exit() in `ecall_init`.
unfoldable pub enter : {E : Type 0} → Flow SocketEventLoop → Flow (ℤ × E) → Flow (Process E)
unfolding begin
enter started (exits c) = exits c
enter started (continues x) = begin started x

-- `main`, up to the first round of the loop: `initialized` is the outcome of initialize_enclave.
unfoldable pub main :
    {E : Type 0} → Ecalls E → Bool → Bool → Bool → String → ℕ → Answers → E → Flow (Process E)
unfolding enter start_loop
main ecalls initialized created bound listendpoint sock a e =
    if initialized
    then enter (start_loop created bound listendpoint sock a) (ecalls.init e)
    else exits 1

-- #define N, the number of service threads of both servers.
abbrev pub service_threads : ℕ
service_threads = 1

abbrev pub set_serving : ℕ → Option ℕ → (ℕ → Option ℕ) → ℕ → Option ℕ
set_serving i fd serving j = if j == i then fd else serving j

-- A step of the loop or of a thread, of which there are n. epoll_wait gives only descriptors that
-- were added.
pub data Step {E : Type 0} (ecalls : Ecalls E) (n : ℕ) (s : Process E) : Process E → Type 0 where
  waits :
      {l : SocketEventLoop} {e : E} (events : List Event)
      → All (λ event. contains event.fd s.loop.epoll ≡ true) events
      → on_events ecalls events (s.loop, s.enclave) ≡ continues (l, e)
      → Step ecalls n s (record s { loop = l; enclave = e })
  takes :
      (i fd : ℕ) (queue : List ℕ)
      → i < n
      → s.serving i ≡ none
      → s.loop.iqueue ≡ fd ∷ queue
      → Step ecalls n s (record s {
        loop = record (s.loop) { iqueue = queue };
        serving = set_serving i (some fd) s.serving;
        taken = s.taken ++ fd ∷ [];
      })
  serves :
      {r : Option ℤ} {e : E} (i fd : ℕ) (reads : List Read)
      → s.serving i ≡ some fd
      → ecalls.tls_recv fd reads s.enclave ≡ some (r, e)
      → Step ecalls n s (record s { enclave = e; serving = set_serving i none s.serving })

pub data Steps {E : Type 0} (ecalls : Ecalls E) (n : ℕ) (s : Process E) : Process E → Type 0 where
  here : Steps ecalls n s s
  next : {t u : Process E} → Steps ecalls n s t → Step ecalls n t u → Steps ecalls n s u

-- ctrlc_handler: `ecall_finish`, and the exit code, where the table's mutex is free.
unfoldable pub ctrlc_handler : {E : Type 0} → (E → E) → Process E → ℕ × Process E
ctrlc_handler ecall_finish s = (0, record s { enclave = ecall_finish s.enclave })
