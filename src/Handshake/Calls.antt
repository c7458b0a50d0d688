-- ===== src/Handshake/Calls.antt =====
-- The steps of the parent in Handshake.antt are the calls of run_child, in their order.
use clonebox.Prelude.{Text, ◌≡◌, refl, ◌∙◌, some, List, [], ◌∷◌, ◌++◌, ℕ, ℤ, arith, text_eq_refl}
use clonebox.Errors.{Errno, IoError, CoreError}
use clonebox.State.{State, get_state_path, set_created, set_stopped}
use clonebox.State.File.{read_state_file, write_state_file, update_state}
use clonebox.Logger.{write_log_file}
use clonebox.Event.{Event}
use clonebox.Event.Sending.{send_event}
use clonebox.Os.{
  Os, Reply, Fd, set_permissions, bind_unix, listen, accept4, waitpid, ok, History, Sys, pure,
  ◌>>=◌, raise, attempt, ask,
}
use clonebox.Runtime.{Runtime, parent_proc_socket, unfreeze_child, get_socket_fd, get_socket_path}
use clonebox.Container.Create.{notify, run_child, last_event}
use clonebox.Handshake.Marks.{
  Mark, writes_state, binds, listens_on, accepts_one, writes_byte, reaps_child, marks, Goes,
  after_step, proceed-Goes, one-Goes, none-Goes,
}

module _ ⦃os : Os⦄ (id sp : Text) where
  -- What goes along a list of marks from any history on.
  abbrev GoesAlong : List Mark → {A : Type 0} → Sys A → Type 0
  GoesAlong path m = (h : History) → Goes id path (m h).0 h (m h).1

  >>=-GoesAlong :
      {A B : Type 0} (path more : List Mark) (m : Sys A) (k : A → Sys B)
      → GoesAlong path m
      → ((h : History) (a : A) → (m h).0 ≡ ok a → GoesAlong more (k a))
      → GoesAlong (path ++ more) (m >>= k)
  >>=-GoesAlong path more m k first next h =
      proceed-Goes id path more (m h).0 k h (m h).1 (first h) (λ a p. next h a p (m h).1)

  one-GoesAlong :
      {A : Type 0} (x : Mark) (m : Sys A)
      → ((h : History) → marks id (m h).1 ≡ after_step (m h).0 x (marks id h))
      → GoesAlong (x ∷ []) m
  one-GoesAlong x m adds h = one-Goes id x (m h).0 h (m h).1 (adds h)

  none-GoesAlong :
      {A : Type 0} (m : Sys A) → ((h : History) → marks id (m h).1 ≡ marks id h) → GoesAlong [] m
  none-GoesAlong m same h = none-Goes id (m h).0 h (m h).1 (same h)

  update_state-GoesAlong : (f : State → State) → GoesAlong (writes_state ∷ []) (update_state id f)
  unfolding update_state read_state_file write_state_file marks
  update_state-GoesAlong f =
      one-GoesAlong writes_state (update_state id f)
        (λ h. ground (arith, text_eq_refl (get_state_path id)))

  notify-GoesAlong : (e : Event) → GoesAlong [] (notify (some sp) e)
  unfolding notify send_event marks
  notify-GoesAlong e = none-GoesAlong (notify (some sp) e) (λ h. ground arith)

  write_log_file-GoesAlong : (fd : Fd) (t : Text) → GoesAlong [] (write_log_file fd t)
  unfolding write_log_file marks
  write_log_file-GoesAlong fd t = none-GoesAlong (write_log_file fd t) (λ h. ground arith)

  unfreeze_child-GoesAlong :
      (r : Runtime) (fd : Fd)
      → r.parent_end ≡ some fd
      → GoesAlong (writes_byte ∷ []) (unfreeze_child r)
  unfolding unfreeze_child marks
  unfreeze_child-GoesAlong r fd has =
      one-GoesAlong writes_byte (unfreeze_child r) (λ h. ground (arith, has))

  waitpid-GoesAlong :
      (f : Errno → CoreError) (pid : ℤ)
      → GoesAlong (reaps_child ∷ []) (attempt f (ask (waitpid pid)))
  unfolding ask marks
  waitpid-GoesAlong f pid =
      one-GoesAlong reaps_child (attempt f (ask (waitpid pid))) (λ h. ground arith)

  parent_proc_socket_keeps :
      (r r' : Runtime) (h : History)
      → (parent_proc_socket id r h).0 ≡ ok r'
      → r'.parent_end ≡ r.parent_end
  unfolding parent_proc_socket
  parent_proc_socket_keeps r r' h done = ground (arith, done)

  raise-GoesAlong : {E A : Type 0} (f : E → CoreError) (r : Reply E A) → GoesAlong [] (raise f r)
  raise-GoesAlong f r = none-GoesAlong (raise f r) (λ h. ground arith)

  get_socket_fd-GoesAlong : GoesAlong [] get_socket_fd
  unfolding get_socket_fd marks
  get_socket_fd-GoesAlong = none-GoesAlong get_socket_fd (λ h. ground arith)

  set_permissions-GoesAlong :
      (f : IoError → CoreError) (p : Text) (n : ℕ)
      → GoesAlong [] (attempt f (ask (set_permissions p n)))
  unfolding ask marks
  set_permissions-GoesAlong f p n =
      none-GoesAlong (attempt f (ask (set_permissions p n))) (λ h. ground arith)

  bind_unix-GoesAlong :
      (f : Errno → CoreError) (fd : Fd) (p : Text)
      → GoesAlong (binds ∷ []) (attempt f (ask (bind_unix fd p)))
  unfolding ask marks
  bind_unix-GoesAlong f fd p =
      one-GoesAlong binds (attempt f (ask (bind_unix fd p))) (λ h. ground arith)

  listen-GoesAlong :
      (f : Errno → CoreError) (fd : Fd) (n : ℕ)
      → GoesAlong (listens_on ∷ []) (attempt f (ask (listen fd n)))
  unfolding ask marks
  listen-GoesAlong f fd n =
      one-GoesAlong listens_on (attempt f (ask (listen fd n))) (λ h. ground arith)

  accept4-GoesAlong :
      (f : Errno → CoreError) (fd : Fd)
      → GoesAlong (accepts_one ∷ []) (attempt f (ask (accept4 fd)))
  unfolding ask marks
  accept4-GoesAlong f fd =
      one-GoesAlong accepts_one (attempt f (ask (accept4 fd))) (λ h. ground arith)

  parent_proc_socket-GoesAlong :
      (r : Runtime) → GoesAlong (binds ∷ listens_on ∷ accepts_one ∷ []) (parent_proc_socket id r)
  unfolding parent_proc_socket
  parent_proc_socket-GoesAlong r =
      >>=-GoesAlong [] _ get_socket_fd _ get_socket_fd-GoesAlong (λ _ fd _.
        >>=-GoesAlong [] _ (raise _ (os.unix_addr (get_socket_path id))) _
          (raise-GoesAlong _ (os.unix_addr (get_socket_path id)))
          (λ _ addr _.
            >>=-GoesAlong (binds ∷ []) _ (attempt _ (ask (bind_unix fd addr))) _
              (bind_unix-GoesAlong _ fd addr)
              (λ _ _ _.
                >>=-GoesAlong [] _ (attempt _ (ask (set_permissions (get_socket_path id) 384))) _
                  (set_permissions-GoesAlong _ (get_socket_path id) 384)
                  (λ _ _ _.
                    >>=-GoesAlong [] _ (raise _ (os.backlog 1)) _ (raise-GoesAlong _ (os.backlog 1))
                      (λ _ backlog _.
                        >>=-GoesAlong (listens_on ∷ []) _ (attempt _ (ask (listen fd backlog))) _
                          (listen-GoesAlong _ fd backlog)
                          (λ _ _ _.
                            >>=-GoesAlong (accepts_one ∷ []) [] (attempt _ (ask (accept4 fd))) _
                              (accept4-GoesAlong _ fd)
                              (λ _ _ _.
                                none-GoesAlong (pure (record r { unix_sock = some fd }))
                                  (λ h. refl))))))))

  -- From `set_created` on, create writes the state, binds its socket, listens, accepts one connection,
  -- writes its byte, waits for the child and writes the state again: whatever the replies, the calls of
  -- these kinds that succeed are the first ones of that list, in its order, and all of them if create
  -- returns without an error.
  pub run_child-Goes :
      (r : Runtime) (pid : ℤ) (parent_end log_fd : Fd) (h : History)
      → r.parent_end ≡ some parent_end
      → let (result, after) =
          (update_state id (set_created pid) >>= λ _. run_child id (some sp) r pid log_fd) h in
        Goes id
          (writes_state ∷ binds ∷ listens_on ∷ accepts_one ∷ writes_byte ∷ reaps_child
            ∷ writes_state ∷ [])
          result
          h
          after
  unfolding run_child
  run_child-Goes r pid parent_end log_fd h has =
      >>=-GoesAlong (writes_state ∷ []) _ (update_state id (set_created pid)) _
        (update_state-GoesAlong (set_created pid))
        (λ _ _ _.
          >>=-GoesAlong (binds ∷ listens_on ∷ accepts_one ∷ []) _ (parent_proc_socket id r) _
            (parent_proc_socket-GoesAlong r)
            (λ h1 r' made.
              >>=-GoesAlong (writes_byte ∷ []) _ (unfreeze_child r') _
                (unfreeze_child-GoesAlong r' parent_end
                  (parent_proc_socket_keeps r r' h1 made ∙ has))
                (λ _ _ _.
                  >>=-GoesAlong (reaps_child ∷ []) _ (attempt _ (ask (waitpid pid))) _
                    (waitpid-GoesAlong _ pid)
                    (λ _ w _.
                      >>=-GoesAlong [] _ (notify (some sp) (last_event id w)) _
                        (notify-GoesAlong (last_event id w))
                        (λ _ _ _.
                          >>=-GoesAlong (writes_state ∷ []) [] (update_state id set_stopped) _
                            (update_state-GoesAlong set_stopped)
                            (λ _ _ _. write_log_file-GoesAlong log_fd _))))))
        h
