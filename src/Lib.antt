-- ===== src/Lib.antt =====
-- Zile: the core of an Emacs-like text editor in C.
--
-- An editor holds a current buffer. A buffer's text is one string of bytes with a gap behind the
-- point, `pre ++ gap ++ post`: moving the point moves the gap, and every change of the text goes
-- through one function, `replace_estr` (src/buffer.c), which logs an undo delta, opens or closes the
-- gap, writes the new text with its line ends converted to the buffer's, and adjusts the markers.
-- Undo replays the log through the same function; killing and yanking are made of it as well. A key
-- sequence is looked up in a tree of bindings and runs a procedure.
--
-- Which file models what:
--   Prelude                the native numbers, byte tests, and lists over the native length.
--   Astr, Astr/Laws        src/astr.c: strings of bytes with their allocated size. An assertion that
--                          fails is `none`; sizes are 64-bit and wrap.
--   Memmem                 src/memrmem.c and the C library's memcmp and memmem on lists of bytes.
--   Estr, Estr/Convert     src/estr.c, src/estr.h: strings with a type of line end, their lines, and
--                          the conversion of line ends. `convert` is the independent description of it.
--   Buffer, Buffer/*       src/buffer.c, src/buffer.h: the buffer and the functions that know of the
--                          gap. `Shows bp pre post` says that the buffer shows `pre` before the point and
--                          `post` behind it, with a gap of zero bytes between them.
--   Editor, Editor/*       the editor's state and `replace_estr` with the parts of its body (the gap,
--                          the clearing, the markers), and `undo_save` of src/undo.c.
--   Move, Move/*           src/editfns.c, src/basic.c and the motions of src/buffer.c.
--   Undo, Undo/Revert      src/undo.c: reverting the log.
--   Kill, Kill/*           src/killring.c and the region and mark functions of src/buffer.c,
--                          src/marker.c, src/line.c and src/funcs.c.
--   History, History/*     src/history.c: the history of the minibuffer.
--   Completion, Completion/*  src/completion.c: `completion_try`, and the columns in which completions
--                          are listed. gnulib's sorted insertion and the listing of a directory are
--                          parameters.
--   Keymap, Keymap/Lookup  src/bind.c: the binding tree.
--   Keymap/Default         src/bind.c: `set_key` and the default bindings.
--   Dispatch, Dispatch/*   src/bind.c: reading a key sequence, self-insertion, the run of a command, and
--                          what is typed while a macro is defined.
--   Keycode, Keycode/Parse src/keycode.c: key strings.
--   Run                    src/eval.c: repeating a command by its numeric argument.
--   Line, Line/Blanks, Indent  src/line.c: line breaks, blanks, filling and indentation.
--   Words, Paragraph, Sexps, Transpose  src/funcs.c: words, paragraphs, balanced expressions and the
--                          transpositions.
--   Marks                  src/funcs.c and src/marker.c: the mark commands and the mark ring.
--   Session                the chain of buffers and the list of windows around the editor.
--   Window, Window/*       src/window.c: the windows. `IsTiled` says that they fill a screen.
--   Resize, Resize/Growth  src/redisplay.c: `resize_windows`.
--   BufferList, BufferList/*  src/buffer.c: the chain of buffers, their names, and killing them.
--   Registers              src/registers.c: copying to and inserting from registers.
--   KillCommands           src/killring.c: the kill commands with a numeric argument.
--   Search, Search/Case    src/search.c: a search, and when it ignores case. The C library's
--                          `re_compile_pattern` and `re_search_2` are a parameter.
--   Isearch, Isearch/*     src/search.c: the incremental search.
--   QueryReplace           src/search.c: query-replace.
--   Path, Path/Plain       src/file.c: the expansion of file names.
--   Terminal, Terminal/Keys src/term_curses.c: the codes of keys, and pushing keys back.
--   Minibuffer, Minibuffer/* src/term_minibuf.c: reading a line in the minibuffer, and drawing it.
--   Commands               src/basic.c, src/line.c, src/funcs.c, src/killring.c: the commands around
--                          the functions above, with their numeric arguments.
--   BlankLines             src/funcs.c: delete-blank-lines.
--   Scrolling              src/basic.c: scrolling the window by its height.
--   Uniarg, Uniarg/Digits  src/funcs.c: universal-argument; src/bind.c: how the argument is shown.
--   Editing, Editing/*     runs of motions, insertions and deletions (src/buffer.c), and the text with a
--                          point that a buffer stands for.
--   Questions              src/minibuf.c: messages and questions in the minibuffer.
--   LispLists              src/lists.c: lists of Lisp data.
--   Macro, Macro/*         src/macro.c, src/getkey.c: recording keys and pushing the keys of a macro back.
--   Tests                  runs on small inputs.
--
-- Pointers and globals: `Editor` holds the globals that the functions here use (`cur_bp`, the kill
-- ring, the last command, the message in the minibuffer). A marker is known by a number, the address
-- that `fresh` gave it, in its buffer's list. A list of keys is a first key and the rest, since
-- the code reads the first one at once. A Guile procedure is a number.
--
-- Errors: `none` is a failed assertion of astr.c or an access outside the string, which the code does
-- not survive; a function that returns a bool returns it beside the editor.
--
-- Loops: loops over a string run on a fuel that is larger than the bytes left, since each round
-- consumes one at least: `lines_loop` and `replace_loop` on the bytes of the string, `vec_loop` on
-- those of the key string, `revert_action` on the length of the log, `offset_to_line` on the size of
-- the buffer, `common_loop` on the bytes of the first match. The loops of commands that no count
-- bounds take their fuel as an argument. Rounds that give out lines run on the number of lines.
--
-- Not modelled: scrolling the list of completions, the commands that a macro runs, the variables,
-- reading and writing files, drawing on the terminal and the interpreter.

pub mod Prelude
pub mod Astr
pub mod Memmem
pub mod Estr
pub mod Buffer
pub mod Editor
pub mod Move
pub mod Undo
pub mod Kill
pub mod Editing
pub mod Run
pub mod Line
pub mod Indent
pub mod Words
pub mod Marks
pub mod Paragraph
pub mod Sexps
pub mod Transpose
pub mod Session
pub mod Window
pub mod Resize
pub mod BufferList
pub mod Registers
pub mod KillCommands
pub mod Search
pub mod Isearch
pub mod QueryReplace
pub mod Questions
pub mod LispLists
pub mod Path
pub mod Commands
pub mod BlankLines
pub mod Scrolling
pub mod Terminal
pub mod Macro
pub mod History
pub mod Completion
pub mod Minibuffer
pub mod Uniarg
pub mod Dispatch
pub mod Keymap
pub mod Keycode
pub mod Tests
