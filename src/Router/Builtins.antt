-- ===== src/Router/Builtins.antt =====
-- The commands that the router always knows, crates/router/src/builtins.rs.
use runloop.Prelude.{String, List, [], ◌∷◌}

abbrev pub builtin_commands : List String
builtin_commands =
    "alias" ∷ "bg" ∷ "break" ∷ "builtin" ∷ "cd" ∷ "command" ∷ "continue" ∷ "dirs" ∷ "echo" ∷ "eval"
    ∷ "exec" ∷ "exit" ∷ "export" ∷ "false" ∷ "fg" ∷ "getopts" ∷ "hash" ∷ "help" ∷ "history" ∷ "jobs"
    ∷ "kill" ∷ "local" ∷ "pwd" ∷ "read" ∷ "readonly" ∷ "return" ∷ "set" ∷ "shift" ∷ "source"
    ∷ "test" ∷ "times" ∷ "trap" ∷ "true" ∷ "type" ∷ "ulimit" ∷ "umask" ∷ "unalias" ∷ "wait" ∷ "awk"
    ∷ "apt" ∷ "apt-get" ∷ "bash" ∷ "brew" ∷ "cat" ∷ "chmod" ∷ "chown" ∷ "chgrp" ∷ "cksum" ∷ "cmp"
    ∷ "cp" ∷ "curl" ∷ "cut" ∷ "date" ∷ "dd" ∷ "df" ∷ "dig" ∷ "du" ∷ "env" ∷ "find" ∷ "free" ∷ "gcc"
    ∷ "clang" ∷ "git" ∷ "go" ∷ "grep" ∷ "gunzip" ∷ "gzip" ∷ "head" ∷ "hostname" ∷ "ifconfig" ∷ "ip"
    ∷ "jq" ∷ "dnf" ∷ "yum" ∷ "kubectl" ∷ "killall" ∷ "less" ∷ "ln" ∷ "ls" ∷ "make" ∷ "man" ∷ "mkdir"
    ∷ "mv" ∷ "nano" ∷ "nc" ∷ "netstat" ∷ "ninja" ∷ "npm" ∷ "node" ∷ "nslookup" ∷ "openssl" ∷ "ping"
    ∷ "ps" ∷ "python" ∷ "python3" ∷ "perl" ∷ "pip" ∷ "pip3" ∷ "pwdx" ∷ "rm" ∷ "rmdir" ∷ "rsync"
    ∷ "rustc" ∷ "cargo" ∷ "scp" ∷ "sed" ∷ "sleep" ∷ "sort" ∷ "ssh" ∷ "ssh-keygen" ∷ "stat" ∷ "sudo"
    ∷ "service" ∷ "systemctl" ∷ "tail" ∷ "tar" ∷ "tee" ∷ "top" ∷ "touch" ∷ "tr" ∷ "traceroute"
    ∷ "uname" ∷ "uniq" ∷ "uptime" ∷ "wc" ∷ "wget" ∷ "which" ∷ "whoami" ∷ "xargs" ∷ "zip" ∷ []
