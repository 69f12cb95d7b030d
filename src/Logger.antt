-- ===== src/Logger.antt =====
-- libs/common/logging/JsonLogger.cpp: one line of JSON for every message, on the standard output and in a file.
use remote_access_platform.Prelude.{
  ℕ, ◌≡◌, sym, ap, ◌∙◌, List, [], ◌∷◌, ◌++◌, Bool, true, false, Option, none, some, is_empty,
  if◌then◌else◌, arith,
}
use mathlib.Core.List.{append-nil, append_assoc}
use remote_access_platform.Qt.{Text, literal}

-- `QtMsgType`
pub data QtMsgType : Type 0 where
  qt_debug_msg qt_info_msg qt_warning_msg qt_critical_msg qt_fatal_msg : QtMsgType

-- `QMessageLogContext`; a null pointer is `none`.
pub record Context : Type 0 where
  pub category : Option Text
  pub file : Option Text
  pub line : ℕ
  pub function : Option Text

-- The members of the JSON object, in the order in which they are set.
pub record LogEntry : Type 0 where
  pub timestamp : Text
  pub level : Text
  pub category : Text
  pub file : Text
  pub line : ℕ
  pub function : Text
  pub message : Text

-- `log_file` is what was written to the file, `none` where no file is open.
pub record JsonLogger : Type 0 where
  pub initialized : Bool
  pub installed : Bool
  pub log_file : Option (List Text)
  pub standard_output : List Text

-- The first argument is what the file holds at its end, if it opens for appending.
unfoldable pub initialize : Option (List Text) → Text → JsonLogger → JsonLogger
initialize opened log_file_path l =
    if l.initialized
    then l
    else if is_empty log_file_path
    then record l { initialized = true }
    else record l { initialized = true; log_file = opened }

unfoldable pub install : JsonLogger → JsonLogger
install l = if l.installed then l else record l { installed = true }

unfoldable pub uninstall : JsonLogger → JsonLogger
uninstall l = if l.installed then record l { installed = false } else l

abbrev pub level_of : QtMsgType → Text
level_of qt_debug_msg = literal "DEBUG"
level_of qt_info_msg = literal "INFO"
level_of qt_warning_msg = literal "WARNING"
level_of qt_critical_msg = literal "CRITICAL"
level_of qt_fatal_msg = literal "FATAL"

abbrev pub text_or : Text → Option Text → Text
text_or otherwise none = otherwise
text_or otherwise (some text) = text

-- The time is an argument.
unfoldable pub format_json_object : Text → QtMsgType → Context → Text → LogEntry
format_json_object now type context msg = record {
  timestamp = now;
  level = level_of type;
  category = text_or (literal "default") context.category;
  file = text_or [] context.file;
  line = context.line;
  function = text_or [] context.function;
  message = msg;
}

unfoldable pub write_log : Text → JsonLogger → JsonLogger
write_log json_line l =
    let shown = record l { standard_output = l.standard_output ++ (json_line ∷ []) } in
    elim l.log_file [
      | none ↦ shown
      | some lines ↦ record shown { log_file = some (lines ++ (json_line ∷ [])) }
    ]

-- `qtMessageHandler`; `to_json` is QJsonDocument's compact form.
unfoldable pub qt_message_handler :
    (LogEntry → Text) → Text → QtMsgType → Context → Text → JsonLogger → JsonLogger
qt_message_handler to_json now type context msg l =
    write_log (to_json (format_json_object now type context msg)) l

-- A message as Qt hands it over.
pub record LogMessage : Type 0 where
  pub now : Text
  pub type : QtMsgType
  pub context : Context
  pub msg : Text

unfoldable pub log_all : (LogEntry → Text) → List LogMessage → JsonLogger → JsonLogger
log_all to_json [] l = l
log_all to_json (m ∷ ms) l =
    log_all to_json ms (qt_message_handler to_json m.now m.type m.context m.msg l)

-- The lines of some messages.
abbrev pub lines_of : (LogEntry → Text) → List LogMessage → List Text
lines_of to_json [] = []
lines_of to_json (m ∷ ms) =
    to_json (format_json_object m.now m.type m.context m.msg) ∷ lines_of to_json ms

-- A logger that is initialized, with what stands in its file and on the output.
record IsOpen (l : JsonLogger) (lines output : List Text) : Type 0 where
  ready : l.initialized ≡ true
  in_file : l.log_file ≡ some lines
  on_output : l.standard_output ≡ output

module _ (to_json : LogEntry → Text) where
  qt_message_handler-IsOpen :
      (m : LogMessage) (l : JsonLogger) (lines output : List Text)
      → IsOpen l lines output
      → let line = to_json (format_json_object m.now m.type m.context m.msg) in
        IsOpen
          (qt_message_handler to_json m.now m.type m.context m.msg l)
          (lines ++ (line ∷ []))
          (output ++ (line ∷ []))
  unfolding qt_message_handler write_log
  qt_message_handler-IsOpen m l lines output o = ground (arith, o.ready, o.in_file, o.on_output)

  log_all-IsOpen :
      (ms : List LogMessage) (l : JsonLogger) (lines output : List Text)
      → IsOpen l lines output
      → IsOpen (log_all to_json ms l) (lines ++ lines_of to_json ms) (output ++ lines_of to_json ms)
  unfolding log_all
  log_all-IsOpen [] l lines output o = record {
    ready = o.ready;
    in_file = o.in_file ∙ ap some (sym (append-nil lines));
    on_output = o.on_output ∙ sym (append-nil output);
  }
  log_all-IsOpen (m ∷ ms) l lines output o =
      let line = to_json (format_json_object m.now m.type m.context m.msg) in
      let l' = qt_message_handler to_json m.now m.type m.context m.msg l in
      let r =
        log_all-IsOpen ms l' (lines ++ (line ∷ [])) (output ++ (line ∷ []))
          (qt_message_handler-IsOpen m l lines output o) in
      record {
        ready = r.ready;
        in_file = r.in_file ∙ ap some (append_assoc lines (line ∷ []) (lines_of to_json ms));
        on_output = r.on_output ∙ append_assoc output (line ∷ []) (lines_of to_json ms);
      }

-- After an initialization with a file that opens, every message adds one line to the file and to
-- the standard output, in order, and a later initialization with another file changes nothing.
log_all-initialize :
    (to_json : LogEntry → Text) (before other : List Text) (path path' : Text)
    (ms : List LogMessage) (l : JsonLogger)
    → l.initialized ≡ false
    → is_empty path ≡ false
    → let t = log_all to_json ms (initialize (some before) path l) in
      (t.log_file ≡ some (before ++ lines_of to_json ms))
      × (t.standard_output ≡ l.standard_output ++ lines_of to_json ms)
      × (initialize (some other) path' t ≡ t)
log_all-initialize to_json before other path path' ms l new full =
    let l' = initialize (some before) path l in
    let o : IsOpen l' before l.standard_output = unfold initialize in ground (arith, new, full) in
    let r = log_all-IsOpen to_json ms l' before l.standard_output o in
    (r.in_file, r.on_output, unfold initialize in ground (arith, r.ready))
