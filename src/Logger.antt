-- ===== src/Logger.antt =====
-- clonebox-core/src/logger.rs: the log file of a container.
use clonebox.Prelude.{Text, codes, ◌++◌}
use clonebox.Errors.{LogError, from_log}
use clonebox.Os.{Os, Sys, attempt, Fd, ask, open_append, write_all}

module _ ⦃os : Os⦄ where
  unfoldable pub open_log_file : Text → Sys Fd
  unfolding ask
  open_log_file bundle_path =
      attempt (λ e. from_log (LogError.io e))
        (ask (open_append (bundle_path ++ codes "/container.log")))

  unfoldable pub write_log_file : Fd → Text → Sys (Unit {0})
  unfolding ask
  write_log_file fd message = attempt (λ e. from_log (LogError.io e)) (ask (write_all fd message))
