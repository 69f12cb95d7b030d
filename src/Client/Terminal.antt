-- ===== src/Client/Terminal.antt =====
-- The terminal of SessionClient.cpp: `sendTerminalInput` and `clearTerminal`.
pub mod Prompt
use remote_access_platform.Prelude.{ℕ, List, [], ◌∷◌, ◌++◌, if◌then◌else◌, is_empty, same}
use remote_access_platform.Qt.{Text, QtText, literal}
use remote_access_platform.Client.{
  Session, Output, terminal_output_changed, terminal_output_received, put,
}

unfoldable pub clear_terminal : Session → Session
clear_terminal s =
    put (terminal_output_changed (literal "$ ")) (record s { terminal_output = literal "$ " })

-- The answers that are built in.
unfoldable pub response : Text → Text
response command =
    if same command (literal "help")
    then literal
        "Available commands: help, uname -a, ps aux, free -h, uptime, whoami, clear, exit\n$ "
    else if same command (literal "uname -a")
    then literal
        "Linux rap-agent-host 6.8.0-45-generic #45-Ubuntu SMP PREEMPT_DYNAMIC x86_64 x86_64 x86_64 GNU/Linux\n$ "
    else if same command (literal "whoami")
    then literal "root (Host Agent Service Container)\n$ "
    else if same command (literal "uptime")
    then literal " 20:38:12 up 4 days, 12:45,  1 user,  load average: 0.14, 0.22, 0.18\n$ "
    else if same command (literal "free -h")
    then literal
        "               total        used        free      shared  buff/cache   available\nMem:           31Gi       4.2Gi        21Gi       128Mi       5.8Gi        26Gi\nSwap:         2.0Gi          0B       2.0Gi\n$ "
    else if same command (literal "ps aux")
    then literal
        "USER         PID %CPU %MEM    VSZ   RSS TTY      STAT START   TIME COMMAND\nroot           1  0.0  0.1 168340 11420 ?        Ss   Aug26   0:04 /sbin/init\nroot       18443  1.2  0.5 450120 42300 ?        Ssl  14:00   1:12 ./rap-agent --daemon\n$ "
    else literal "bash: " ++ (command ++ literal ": command executed on remote agent\n$ ")

unfoldable pub send_terminal_input : QtText → Text → Session → Session
send_terminal_input qt command s =
    let clean = qt.trimmed command in
    let s1 = record s { terminal_output = s.terminal_output ++ (clean ++ literal "\n") } in
    let output = s1.terminal_output ++ response clean in
    if is_empty command
    then s
    else if same clean (literal "clear")
    then clear_terminal s1
    else put (terminal_output_received clean)
        (put (terminal_output_changed output) (record s1 { terminal_output = output }))
