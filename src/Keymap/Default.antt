-- ===== src/Keymap/Default.antt =====
-- The default key bindings (src/bind.c). `lookup` is the interpreter's table of procedures by name,
-- `is_print` the C library's test, and `self_insert` the procedure of self-insert-command.
use zile.Prelude.{
  ℕ, zero, suc, ◌+◌, List, [], ◌∷◌, Option, none, some, Bool, true, false, if◌then◌else◌, ◌>>=◌,
  codes,
}
use Prim.Native.String.{String}
use zile.Keymap.{Binding, bind_key_vec, node_new}
use zile.Keycode.{KeyVec, keys, invalid, overrun, keystrtovec}

-- The keys of a string bound: `none` where the string is empty, at which `gl_list_get_at` aborts,
-- or is read behind its end.
unfoldable pub bind_keys : KeyVec → ℕ → Binding → Option Binding
bind_keys (keys []) p root = none
bind_keys (keys (k ∷ ks)) p root = some (bind_key_vec k ks p root)
bind_keys invalid p root = some root
bind_keys overrun p root = none

-- `false` where the name is no procedure's, which is reported.
unfoldable pub set_key : (List ℕ → Option ℕ) → Binding → List ℕ → List ℕ → Option (Bool × Binding)
unfolding bind_keys
set_key lookup root keystr funcname = elim (lookup funcname) [
  | none ↦ some (false, root)
  | some p ↦ do v ← keystrtovec keystr; root' ← bind_keys v p root; some (true, root')
]

unfoldable pub set_keys : (List ℕ → Option ℕ) → List (String × String) → Binding → Option Binding
unfolding set_key
set_keys lookup [] root = some root
set_keys lookup ((keystr, funcname) ∷ rows) root = do
  (_, root') ← set_key lookup root (codes keystr) (codes funcname)
  set_keys lookup rows root'

-- The loop over the printing keys, with the rounds left.
unfoldable pub print_loop : (ℕ → Bool) → ℕ → ℕ → ℕ → Binding → Binding
print_loop is_print self_insert zero i root = root
print_loop is_print self_insert (suc rounds) i root =
    print_loop is_print self_insert rounds (i + 1)
      (if is_print i then bind_key_vec i [] self_insert root else root)

abbrev pub default_bindings : List (String × String)
default_bindings =
    ("\\M-m", "back-to-indentation")
    ∷ ("\\LEFT", "backward-char")
    ∷ ("\\BACKSPACE", "backward-delete-char")
    ∷ ("\\M-\\BACKSPACE", "backward-kill-word")
    ∷ ("\\M-{", "backward-paragraph")
    ∷ ("\\C-\\M-b", "backward-sexp")
    ∷ ("\\M-b", "backward-word")
    ∷ ("\\M-<", "beginning-of-buffer")
    ∷ ("\\HOME", "beginning-of-line")
    ∷ ("\\C-a", "beginning-of-line")
    ∷ ("\\C-xe", "call-last-kbd-macro")
    ∷ ("\\M-w", "copy-region-as-kill")
    ∷ ("\\C-xrs", "copy-to-register")
    ∷ ("\\C-xrx", "copy-to-register")
    ∷ ("\\C-x\\C-o", "delete-blank-lines")
    ∷ ("\\DELETE", "delete-char")
    ∷ ("\\C-d", "delete-char")
    ∷ ("\\M-\\\\", "delete-horizontal-space")
    ∷ ("\\C-x1", "delete-other-windows")
    ∷ ("\\C-x0", "delete-window")
    ∷ ("\\C-b", "describe-bindings")
    ∷ ("\\F1b", "describe-bindings")
    ∷ ("\\C-hf", "describe-function")
    ∷ ("\\F1f", "describe-function")
    ∷ ("\\C-hk", "describe-key")
    ∷ ("\\F1k", "describe-key")
    ∷ ("\\C-hv", "describe-variable")
    ∷ ("\\F1v", "describe-variable")
    ∷ ("\\C-x\\C-l", "downcase-region")
    ∷ ("\\M-l", "downcase-word")
    ∷ ("\\C-x|", "end-kbd-macro")
    ∷ ("\\M->", "end-of-buffer")
    ∷ ("\\END", "end-of-line")
    ∷ ("\\C-e", "end-of-line")
    ∷ ("\\C-x^", "enlarge-window")
    ∷ ("\\C-x\\C-x", "exchange-point-and-mark")
    ∷ ("\\M-x", "execute-extended-command")
    ∷ ("\\M-q", "fill-paragraph")
    ∷ ("\\C-x\\C-v", "find-alternate-file")
    ∷ ("\\C-x\\C-f", "find-file")
    ∷ ("\\C-x\\C-r", "find-file-read-only")
    ∷ ("\\RIGHT", "forward-char")
    ∷ ("\\C-f", "forward-char")
    ∷ ("\\M-}", "forward-paragraph")
    ∷ ("\\C-\\M-f", "forward-sexp")
    ∷ ("\\M-f", "forward-word")
    ∷ ("\\M-gg", "goto-line")
    ∷ ("\\M-g\\M-g", "goto-line")
    ∷ ("\\TAB", "indent-for-tab-command")
    ∷ ("\\C-xi", "insert-file")
    ∷ ("\\C-xri", "insert-register")
    ∷ ("\\C-xrg", "insert-register")
    ∷ ("\\C-r", "isearch-backward")
    ∷ ("\\C-\\M-r", "isearch-backward-regexp")
    ∷ ("\\C-s", "isearch-forward")
    ∷ ("\\C-\\M-s", "isearch-forward-regexp")
    ∷ ("\\M-\\SPC", "just-one-space")
    ∷ ("\\C-g", "keyboard-quit")
    ∷ ("\\C-xk", "kill-buffer")
    ∷ ("\\C-k", "kill-line")
    ∷ ("\\C-w", "kill-region")
    ∷ ("\\C-\\M-k", "kill-sexp")
    ∷ ("\\M-d", "kill-word")
    ∷ ("\\C-x\\C-b", "list-buffers")
    ∷ ("\\M-h", "mark-paragraph")
    ∷ ("\\C-\\M-@", "mark-sexp")
    ∷ ("\\C-xh", "mark-whole-buffer")
    ∷ ("\\M-@", "mark-word")
    ∷ ("\\RET", "znewline")
    ∷ ("\\C-j", "newline-and-indent")
    ∷ ("\\DOWN", "next-line")
    ∷ ("\\C-n", "next-line")
    ∷ ("\\C-o", "open-line")
    ∷ ("\\C-xo", "other-window")
    ∷ ("\\UP", "previous-line")
    ∷ ("\\C-p", "previous-line")
    ∷ ("\\M-%", "query-replace")
    ∷ ("\\C-q", "quoted-insert")
    ∷ ("\\C-l", "recenter")
    ∷ ("\\C-x\\C-s", "save-buffer")
    ∷ ("\\C-x\\C-c", "save-buffers-kill-emacs")
    ∷ ("\\C-xs", "save-some-buffers")
    ∷ ("\\PRIOR", "scroll-down")
    ∷ ("\\M-v", "scroll-down")
    ∷ ("\\NEXT", "scroll-up")
    ∷ ("\\C-v", "scroll-up")
    ∷ ("\\C-xf", "set-fill-column")
    ∷ ("\\C-@", "set-mark-command")
    ∷ ("\\M-!", "shell-command")
    ∷ ("\\M-|", "shell-command-on-region")
    ∷ ("\\C-x2", "split-window")
    ∷ ("\\C-x(", "start-kbd-macro")
    ∷ ("\\C-x\\C-z", "suspend-emacs")
    ∷ ("\\C-z", "suspend-emacs")
    ∷ ("\\C-xb", "switch-to-buffer")
    ∷ ("\\M-i", "tab-to-tab-stop")
    ∷ ("\\C-x\\C-q", "toggle-read-only")
    ∷ ("\\C-t", "transpose-chars")
    ∷ ("\\C-x\\C-t", "transpose-lines")
    ∷ ("\\C-\\M-t", "transpose-sexps")
    ∷ ("\\M-t", "transpose-words")
    ∷ ("\\C-xu", "undo")
    ∷ ("\\C-_", "undo")
    ∷ ("\\C-u", "universal-argument")
    ∷ ("\\C-x\\C-u", "upcase-region")
    ∷ ("\\M-u", "upcase-word")
    ∷ ("\\C-hw", "where-is")
    ∷ ("\\F1w", "where-is")
    ∷ ("\\C-x\\C-w", "write-file")
    ∷ ("\\C-y", "yank")
    ∷ ("\\M-c", "console")
    ∷ []

unfoldable pub init_default_bindings : (List ℕ → Option ℕ) → (ℕ → Bool) → ℕ → Option Binding
unfolding node_new print_loop set_keys
init_default_bindings lookup is_print self_insert =
    set_keys lookup default_bindings (print_loop is_print self_insert 256 0 (node_new 10 0))
