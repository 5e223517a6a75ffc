-- ===== src/Seccomp/Tables/Allowed.antt =====
-- python/pydeno/_sandbox.py: `_ALLOWED`, the calls that a worker may make with any arguments.
use pydeno.Prelude.{none, some, List, [], ◌∷◌}
use pydeno.Seccomp.Tables.{Row, row}

unfoldable pub allowed : List Row
allowed =
    row "futex" (some 202) (some 98)
    ∷ row "epoll_pwait" (some 281) (some 22)
    ∷ row "epoll_wait" (some 232) none
    ∷ row "read" (some 0) (some 63)
    ∷ row "write" (some 1) (some 64)
    ∷ row "recvfrom" (some 45) (some 207)
    ∷ row "sendto" (some 44) (some 206)
    ∷ row "madvise" (some 28) (some 233)
    ∷ row "munmap" (some 11) (some 215)
    ∷ row "clock_nanosleep" (some 230) (some 115)
    ∷ row "getppid" (some 110) (some 173)
    ∷ row "gettid" (some 186) (some 178)
    ∷ row "pread64" (some 17) (some 67)
    ∷ row "sched_getaffinity" (some 204) (some 123)
    ∷ row "rt_sigprocmask" (some 14) (some 135)
    ∷ row "clock_gettime" (some 228) (some 113)
    ∷ row "getpid" (some 39) (some 172)
    ∷ row "sched_yield" (some 24) (some 124)
    ∷ row "mmap" (some 9) (some 222)
    ∷ row "mprotect" (some 10) (some 226)
    ∷ row "brk" (some 12) (some 214)
    ∷ row "mremap" (some 25) (some 216)
    ∷ row "set_robust_list" (some 273) (some 99)
    ∷ row "rseq" (some 334) (some 293)
    ∷ row "set_tid_address" (some 218) (some 96)
    ∷ row "exit" (some 60) (some 93)
    ∷ row "exit_group" (some 231) (some 94)
    ∷ row "sched_getparam" (some 143) (some 121)
    ∷ row "sched_getscheduler" (some 145) (some 120)
    ∷ row "sched_getattr" (some 315) (some 275)
    ∷ row "sched_get_priority_max" (some 146) (some 125)
    ∷ row "sched_get_priority_min" (some 147) (some 126)
    ∷ row "nanosleep" (some 35) (some 101)
    ∷ row "clock_getres" (some 229) (some 114)
    ∷ row "gettimeofday" (some 96) (some 169)
    ∷ row "time" (some 201) none
    ∷ row "rt_sigaction" (some 13) (some 134)
    ∷ row "rt_sigreturn" (some 15) (some 139)
    ∷ row "sigaltstack" (some 131) (some 132)
    ∷ row "restart_syscall" (some 219) (some 128)
    ∷ row "epoll_create1" (some 291) (some 20)
    ∷ row "epoll_create" (some 213) none
    ∷ row "epoll_ctl" (some 233) (some 21)
    ∷ row "epoll_pwait2" (some 441) (some 441)
    ∷ row "eventfd2" (some 290) (some 19)
    ∷ row "eventfd" (some 284) none
    ∷ row "poll" (some 7) none
    ∷ row "ppoll" (some 271) (some 73)
    ∷ row "select" (some 23) none
    ∷ row "pselect6" (some 270) (some 72)
    ∷ row "pipe2" (some 293) (some 59)
    ∷ row "pipe" (some 22) none
    ∷ row "readv" (some 19) (some 65)
    ∷ row "writev" (some 20) (some 66)
    ∷ row "pwrite64" (some 18) (some 68)
    ∷ row "preadv" (some 295) (some 69)
    ∷ row "pwritev" (some 296) (some 70)
    ∷ row "lseek" (some 8) (some 62)
    ∷ row "close" (some 3) (some 57)
    ∷ row "dup" (some 32) (some 23)
    ∷ row "dup2" (some 33) none
    ∷ row "dup3" (some 292) (some 24)
    ∷ row "recvmsg" (some 47) (some 212)
    ∷ row "sendmsg" (some 46) (some 211)
    ∷ row "shutdown" (some 48) (some 210)
    ∷ row "fsync" (some 74) (some 82)
    ∷ row "fdatasync" (some 75) (some 83)
    ∷ row "ftruncate" (some 77) (some 46)
    ∷ row "openat" (some 257) (some 56)
    ∷ row "open" (some 2) none
    ∷ row "fstat" (some 5) (some 80)
    ∷ row "newfstatat" (some 262) none
    ∷ row "fstatat" none (some 79)
    ∷ row "statx" (some 332) (some 291)
    ∷ row "stat" (some 4) none
    ∷ row "lstat" (some 6) none
    ∷ row "access" (some 21) none
    ∷ row "faccessat" (some 269) (some 48)
    ∷ row "faccessat2" (some 439) (some 439)
    ∷ row "readlinkat" (some 267) (some 78)
    ∷ row "readlink" (some 89) none
    ∷ row "getcwd" (some 79) (some 17)
    ∷ row "getrandom" (some 318) (some 278)
    ∷ row "getrlimit" (some 97) (some 163)
    ∷ row "getrusage" (some 98) (some 165)
    ∷ row "getuid" (some 102) (some 174)
    ∷ row "geteuid" (some 107) (some 175)
    ∷ row "getgid" (some 104) (some 176)
    ∷ row "getegid" (some 108) (some 177)
    ∷ row "getresuid" (some 118) (some 148)
    ∷ row "getresgid" (some 120) (some 150)
    ∷ row "getgroups" (some 115) (some 158)
    ∷ row "uname" (some 63) (some 160)
    ∷ []
