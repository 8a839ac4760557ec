-- ===== src/Launch/Reports.antt =====
-- `process::launch` of src/process.cpp where the child fails before it becomes the program.
use sdb_building_a_debugger.Base.{
  ℕ, take, take_all, sym, [], ◌≤◌, ◌∙◌, ap, drop, ◌≡◌, refl, subst, arith, Bool, true, false,
  String, List, ◌∷◌, ◌++◌, codes, length, Option, none, some, ℤ, inl, inr, Bool-cases, int_eq,
  negsuc,
}
use sdb_building_a_debugger.Platform.{Platform, done, failed}
use sdb_building_a_debugger.Process.Run.{error_text, ok, Sys-cases}
use sdb_building_a_debugger.Pipe.{Pipe, open_pipe, close_read, close_write, read_pipe}
use sdb_building_a_debugger.Launch.{
  LaunchCalls, became_program, exited_with_error, exit_with_perror, or_exit, replace_stdout,
  request_trace, run_child, launch_threw, after_read, run_parent, fork_child, launch_with, launch,
}

module _ {W : Type 0} (calls : LaunchCalls W) where
  -- A call of the child that fails, with the name that it is reported by.
  pub data FailedCall : String → ℕ → Type 0 where
    grouping : (e : ℕ) (u : W) → (calls.setpgid u).0 ≡ failed e → FailedCall "could not set pgid" e
    replacing :
        (e : ℕ) (fd : ℤ) (u : W)
        → (calls.dup2 fd u).0 ≡ failed e
        → FailedCall "stdout replacement failed" e
    tracing : (e : ℕ) (u : W) → (calls.traceme u).0 ≡ failed e → FailedCall "tracing failed" e
    executing :
        (e : ℕ) (path : List ℕ) (u : W)
        → (calls.exec path u).0 ≡ failed e
        → FailedCall "exec failed" e

  abbrev pub perror_text : String → ℕ → List ℕ
  perror_text prefix e = codes prefix ++ codes ": " ++ calls.strerror e

  -- What the child relies on of the pipe, where `pending` is what was written and not read yet: a
  -- write of up to `PIPE_BUF` bytes, which is 4096, that succeeds is done at once and completely, and
  -- the other calls leave the content as it is, while the parent holds the pipe open.
  pub record ChannelLaws (read_fd write_fd : ℤ) (pending : W → List ℕ) : Type 0 where
    pub pending-write :
        (bytes : List ℕ) (n : ℕ) (u : W)
        → length bytes ≤ 4096
        → (calls.pipes.write write_fd bytes u).0 ≡ done n
        → pending (calls.pipes.write write_fd bytes u).1 ≡ pending u ++ bytes
    pub pending-close : (u : W) → pending (calls.pipes.close read_fd u) ≡ pending u
    pub pending-setpgid : (u : W) → pending (calls.setpgid u).1 ≡ pending u
    pub pending-personality : (u : W) → pending (calls.personality u) ≡ pending u
    pub pending-dup2 : (fd : ℤ) (u : W) → pending (calls.dup2 fd u).1 ≡ pending u
    pub pending-traceme : (u : W) → pending (calls.traceme u).1 ≡ pending u
    pub pending-exec :
        (path : List ℕ) (e : ℕ) (u : W)
        → (calls.exec path u).0 ≡ failed e
        → pending (calls.exec path u).1 ≡ pending u

  -- The text of a failed call begins with a letter, and fits into one read.
  perror_text_fits :
      (prefix : String) (e : ℕ)
      → FailedCall prefix e
      → length (calls.strerror e) ≤ 900
      → ((c : ℕ) × (chars : List ℕ) × (perror_text prefix e ≡ c ∷ chars))
        × (length (perror_text prefix e) ≤ 1024)
  perror_text_fits _ _ (grouping e u d) h =
      ((b'c', drop 1 (perror_text "could not set pgid" e), refl), omega arith)
  perror_text_fits _ _ (replacing e fd u d) h =
      ((b's', drop 1 (perror_text "stdout replacement failed" e), refl), omega arith)
  perror_text_fits _ _ (tracing e u d) h =
      ((b't', drop 1 (perror_text "tracing failed" e), refl), omega arith)
  perror_text_fits _ _ (executing e path u d) h =
      ((b'e', drop 1 (perror_text "exec failed" e), refl), omega arith)

  module _ (pending : W → List ℕ) (short : (e : ℕ) → length (calls.strerror e) ≤ 900) where
    -- The pipe holds what `perror` would print of a failed call.
    abbrev pub Wrote : W → Type 0
    Wrote v = (prefix : String) × (e : ℕ) × FailedCall prefix e × (pending v ≡ perror_text prefix e)

    module _ (read_fd : ℤ) (channel : Pipe) (v : W)
        (laws : ChannelLaws read_fd channel.write_fd pending) where
      perror_Wrote :
          (prefix : String) (e : ℕ) (w : W)
          → FailedCall prefix e
          → pending w ≡ []
          → exit_with_perror calls channel prefix e w ≡ exited_with_error v
          → Wrote v
      unfolding exit_with_perror
      perror_Wrote prefix e w cause empty run =
          elim (Sys-cases (calls.pipes.write channel.write_fd (perror_text prefix e) w).0) [
            | inl (n, d) ↦
                let there : v ≡ (calls.pipes.write channel.write_fd (perror_text prefix e) w).1 =
                  ground arith in
                let fits = (perror_text_fits prefix e cause (short e)).1 in
                let put = laws.pending-write (perror_text prefix e) n w (omega (arith, fits)) d in
                (
                  prefix,
                  e,
                  cause,
                  ap pending there ∙ put ∙ ap (λ xs. xs ++ perror_text prefix e) empty,
                )
            | inr (n, d) ↦ absurd (ground arith)
          ]

      exec_Wrote :
          (path : List ℕ) (w : W)
          → pending w ≡ []
          → or_exit calls channel "exec failed" (calls.exec path w) became_program
            ≡ exited_with_error v
          → Wrote v
      unfolding or_exit
      exec_Wrote path w empty run = elim (Sys-cases (calls.exec path w).0) [
        | inl (_, d) ↦ absurd (ground arith)
        | inr (e, d) ↦
            perror_Wrote "exec failed" e (calls.exec path w).1 (executing e path w d)
              (laws.pending-exec path e w d ∙ empty) (ground arith)
      ]

      trace_Wrote :
          (debug : Bool) (path : List ℕ) (w : W)
          → pending w ≡ []
          → request_trace calls channel debug w (λ traced.
            or_exit calls channel "exec failed" (calls.exec path traced) became_program)
            ≡ exited_with_error v
          → Wrote v
      unfolding request_trace
      trace_Wrote false path w empty run = exec_Wrote path w empty run
      trace_Wrote true path w empty run =
          let still = laws.pending-traceme w ∙ empty in
          elim (Sys-cases (calls.traceme w).0) [
            | inl (_, d) ↦ exec_Wrote path (calls.traceme w).1 still (ground arith)
            | inr (e, d) ↦
                perror_Wrote "tracing failed" e (calls.traceme w).1 (tracing e w d) still
                  (ground arith)
          ]

      stdout_Wrote :
          (stdout_replacement : Option ℤ) (debug : Bool) (path : List ℕ) (w : W)
          → pending w ≡ []
          → replace_stdout calls channel stdout_replacement w (λ replaced.
            request_trace calls channel debug replaced (λ traced.
              or_exit calls channel "exec failed" (calls.exec path traced) became_program))
            ≡ exited_with_error v
          → Wrote v
      unfolding replace_stdout
      stdout_Wrote none debug path w empty run = trace_Wrote debug path w empty run
      stdout_Wrote (some fd) debug path w empty run =
          let still = laws.pending-dup2 fd w ∙ empty in
          elim (Sys-cases (calls.dup2 fd w).0) [
            | inl (n, d) ↦ trace_Wrote debug path (calls.dup2 fd w).1 still (ground arith)
            | inr (e, d) ↦
                perror_Wrote "stdout replacement failed" e (calls.dup2 fd w).1 (replacing e fd w d)
                  still (ground arith)
          ]

    write_fd-close_read :
        (channel : Pipe) (w : W) → (close_read calls.pipes channel w).0.write_fd ≡ channel.write_fd
    unfolding close_read
    write_fd-close_read channel w = ground arith

    pending-close_read :
        (channel : Pipe) (w : W)
        → ChannelLaws channel.read_fd channel.write_fd pending
        → pending (close_read calls.pipes channel w).1 ≡ pending w
    unfolding close_read
    pending-close_read channel w laws = ground (arith, laws.pending-close w)

    child_Wrote :
        (channel : Pipe) (path : List ℕ) (debug : Bool) (stdout_replacement : Option ℤ) (w v : W)
        → ChannelLaws channel.read_fd channel.write_fd pending
        → pending w ≡ []
        → run_child calls channel path debug stdout_replacement w ≡ exited_with_error v
        → Wrote v
    unfolding run_child close_read
    child_Wrote channel path debug stdout_replacement w v laws empty run =
        let still : pending (calls.setpgid w).1 ≡ [] = laws.pending-setpgid w ∙ empty in
        let before : W = calls.personality (calls.setpgid w).1 in
        let kept : pending before ≡ [] = laws.pending-personality (calls.setpgid w).1 ∙ still in
        elim (Sys-cases (calls.setpgid w).0) [
          | inr (e, d) ↦
              perror_Wrote channel.read_fd channel v laws "could not set pgid" e (calls.setpgid w).1
                (grouping e w d) still (ground arith)
          | inl (_, d) ↦
              stdout_Wrote channel.read_fd (close_read calls.pipes channel before).0 v
                (subst (λ fd. ChannelLaws channel.read_fd fd pending)
                  (sym (write_fd-close_read channel before)) laws)
                stdout_replacement debug path (close_read calls.pipes channel before).1
                (pending-close_read channel before laws ∙ kept) (ground arith)
        ]

module _ {W : Type 0} (pf : Platform W) (calls : LaunchCalls W) where
  -- The parent's world once it has closed the pipe and reaped the child.
  abbrev pub reaped : ℕ → Pipe → W → W
  reaped pid channel w =
      let (reader, closed) = close_write calls.pipes channel w in
      let (_, behind) = read_pipe calls.pipes reader closed in
      (pf.waitpid pid (close_read calls.pipes reader behind).1).1

  -- What the parent reads, if it is not empty, it throws.
  parent_throws :
      (fuel pid breakpoint_id watchpoint_id c : ℕ) (channel : Pipe) (debug : Bool)
      (user chars : List ℕ) (w : W)
      → (calls.pipes.read channel.read_fd 1024 (close_write calls.pipes channel w).1).0
        ≡ done (c ∷ chars)
      → run_parent pf calls fuel channel debug user breakpoint_id watchpoint_id pid w
        ≡ launch_threw (error_text (c ∷ chars)) (reaped pid channel w)
  unfolding run_parent read_pipe close_write after_read
  parent_throws fuel pid breakpoint_id watchpoint_id c channel debug user chars w e =
      elim (Bool-cases (int_eq channel.write_fd (negsuc 0))) [
        | inl closed ↦ ground arith
        | inr still ↦ ground arith
      ]

  -- Where the pipe is opened and a child is forked, the pipe is empty at the child's start and obeys
  -- the laws above, no text of `strerror` is longer than 900 bytes, and the child exits because one
  -- of its calls failed; and the parent's read of the pipe gives what the child left in it, up to
  -- 1024 bytes: `launch` in the parent reaps the child and throws the text that `perror` would print
  -- of the failed call.
  pub launch_reports :
      (pending : W → List ℕ) (fuel breakpoint_id watchpoint_id pid : ℕ) (user path : List ℕ)
      (debug : Bool) (stdout_replacement : Option ℤ) (channel : Pipe) (w w1 w2 v0 v : W)
      → ChannelLaws calls channel.read_fd channel.write_fd pending
      → ((e : ℕ) → length (calls.strerror e) ≤ 900)
      → open_pipe calls.pipes true w ≡ (ok channel, w1)
      → calls.fork w1 ≡ (done pid, w2)
      → pending v0 ≡ []
      → run_child calls channel path debug stdout_replacement v0 ≡ exited_with_error v
      → (calls.pipes.read channel.read_fd 1024 (close_write calls.pipes channel w2).1).0
        ≡ done (take 1024 (pending v))
      → (prefix : String) × (e : ℕ) × FailedCall calls prefix e
        × (launch pf calls fuel debug user breakpoint_id watchpoint_id w
            ≡ launch_threw (error_text (perror_text calls prefix e)) (reaped pid channel w2))
  unfolding launch launch_with fork_child
  launch_reports pending fuel breakpoint_id watchpoint_id pid user path debug stdout_replacement
        channel w w1 w2 v0 v laws short opens forks empty fails reads =
      let (prefix, e, cause, wrote) =
        child_Wrote calls pending short channel path debug stdout_replacement v0 v laws empty
          fails in
      let ((c, chars, text), fits) = perror_text_fits calls prefix e cause (short e) in
      let whole : take 1024 (pending v) ≡ perror_text calls prefix e =
        ap (take 1024) wrote ∙ take_all 1024 (perror_text calls prefix e) fits in
      let throws =
        parent_throws fuel pid breakpoint_id watchpoint_id c channel debug user chars w2
          (reads ∙ ap done (whole ∙ text)) in
      (prefix, e, cause, rw (opens, forks, text) throws)
