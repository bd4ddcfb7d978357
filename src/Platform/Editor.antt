-- ===== src/Platform/Editor.antt =====
-- src/lib/platform/editor.cpp: opening a file in the user's editor.
use wsldisk.Base.{ℕ, ◌==◌, Bytes, txt, fmt, any, none, some, [], ◌∷◌, if◌then◌else◌}
use wsldisk.Errors.{Error, ok, err}
use wsldisk.Effects.{M}
use wsldisk.WinPath.{Wide, FilePath}
use wsldisk.Model.Text.{to_wide}
use wsldisk.Platform.Win32Error.{error_from_win32}
use wsldisk.Platform.Win32.{Win32, signaled, failed, elapsed}

unfoldable pub quoted : Wide → Wide
quoted argument =
    if any (λ c. c == b' ') argument then fmt ((34 ∷ []) ∷ argument ∷ (34 ∷ []) ∷ []) else argument

-- INFINITE.
abbrev no_limit : ℕ
no_limit = 0xFFFFFFFF

module _ (W : Win32) where
  abbrev not_run : Bytes → FilePath → ℕ → Error
  not_run command file last = record (error_from_win32 last (fmt (txt "run " ∷ command ∷ []))) {
    remedy = fmt (
        txt "set %EDITOR% to something on PATH, or edit "
        ∷ W.path_string file
        ∷ txt " by hand"
        ∷ []);
  }

  unfoldable pub launch_editor : Bytes → FilePath → M W.World (Unit {0})
  unfolding quoted
  launch_editor command file w =
      let started = W.create_process (fmt (to_wide command ∷ txt " " ∷ quoted file ∷ [])) none w in
      elim started.0 [
        | none ↦ (err (not_run command file (W.get_last_error started.1)), started.1)
        | some (process, thread) ↦
            let waited = W.wait_for_single_object process no_limit started.1 in
            (
              elim waited.0 [
                | failed ↦ err (
                    error_from_win32 (W.get_last_error waited.1)
                      (fmt (txt "wait for " ∷ command ∷ txt " to close" ∷ [])))
                | signaled ↦ ok tt
                | elapsed ↦ ok tt
              ],
              W.close_handle process (W.close_handle thread waited.1),
            )
      ]
