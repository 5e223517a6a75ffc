-- ===== src/Seccomp/Tables/Syscalls.antt =====
-- python/pydeno/_sandbox.py: `_SYSCALLS`, the numbers of the calls that the filter knows by name.
use pydeno.Prelude.{none, some, List, [], ◌∷◌}
use pydeno.Seccomp.Tables.{Row, row}

unfoldable pub syscalls : List Row
syscalls =
    row "execve" (some 59) (some 221)
    ∷ row "execveat" (some 322) (some 281)
    ∷ row "fork" (some 57) none
    ∷ row "vfork" (some 58) none
    ∷ row "ptrace" (some 101) (some 117)
    ∷ row "process_vm_readv" (some 310) (some 270)
    ∷ row "process_vm_writev" (some 311) (some 271)
    ∷ row "mount" (some 165) (some 40)
    ∷ row "umount2" (some 166) (some 39)
    ∷ row "pivot_root" (some 155) (some 41)
    ∷ row "chroot" (some 161) (some 51)
    ∷ row "setns" (some 308) (some 268)
    ∷ row "unshare" (some 272) (some 97)
    ∷ row "kexec_load" (some 246) (some 104)
    ∷ row "init_module" (some 175) (some 105)
    ∷ row "finit_module" (some 313) (some 273)
    ∷ row "delete_module" (some 176) (some 106)
    ∷ row "bpf" (some 321) (some 280)
    ∷ row "perf_event_open" (some 298) (some 241)
    ∷ row "userfaultfd" (some 323) (some 282)
    ∷ row "keyctl" (some 250) (some 219)
    ∷ row "add_key" (some 248) (some 217)
    ∷ row "request_key" (some 249) (some 218)
    ∷ row "open_by_handle_at" (some 304) (some 265)
    ∷ row "name_to_handle_at" (some 303) (some 264)
    ∷ row "io_uring_setup" (some 425) (some 425)
    ∷ row "io_uring_enter" (some 426) (some 426)
    ∷ row "io_uring_register" (some 427) (some 427)
    ∷ row "connect" (some 42) (some 203)
    ∷ row "bind" (some 49) (some 200)
    ∷ row "listen" (some 50) (some 201)
    ∷ row "accept" (some 43) (some 202)
    ∷ row "accept4" (some 288) (some 242)
    ∷ row "swapon" (some 167) (some 224)
    ∷ row "swapoff" (some 168) (some 225)
    ∷ row "reboot" (some 169) (some 142)
    ∷ row "acct" (some 163) (some 89)
    ∷ row "kcmp" (some 312) (some 272)
    ∷ row "socket" (some 41) (some 198)
    ∷ row "memfd_create" (some 319) (some 279)
    ∷ row "sysinfo" (some 99) (some 179)
    ∷ row "getpriority" (some 140) (some 141)
    ∷ row "ioprio_get" (some 252) (some 31)
    ∷ row "pidfd_open" (some 434) (some 434)
    ∷ row "pidfd_getfd" (some 438) (some 438)
    ∷ row "pidfd_send_signal" (some 424) (some 424)
    ∷ row "process_madvise" (some 440) (some 440)
    ∷ row "tkill" (some 200) (some 130)
    ∷ row "syslog" (some 103) (some 116)
    ∷ row "iopl" (some 172) none
    ∷ row "ioperm" (some 173) none
    ∷ row "chmod" (some 90) none
    ∷ row "fchmod" (some 91) (some 52)
    ∷ row "fchmodat" (some 268) (some 53)
    ∷ row "fchmodat2" (some 452) (some 452)
    ∷ row "chown" (some 92) none
    ∷ row "fchown" (some 93) (some 55)
    ∷ row "lchown" (some 94) none
    ∷ row "fchownat" (some 260) (some 54)
    ∷ row "utime" (some 132) none
    ∷ row "utimes" (some 235) none
    ∷ row "futimesat" (some 261) none
    ∷ row "utimensat" (some 280) (some 88)
    ∷ row "setxattr" (some 188) (some 5)
    ∷ row "lsetxattr" (some 189) (some 6)
    ∷ row "fsetxattr" (some 190) (some 7)
    ∷ row "removexattr" (some 197) (some 14)
    ∷ row "lremovexattr" (some 198) (some 15)
    ∷ row "fremovexattr" (some 199) (some 16)
    ∷ row "setuid" (some 105) (some 146)
    ∷ row "setgid" (some 106) (some 144)
    ∷ row "setreuid" (some 113) (some 145)
    ∷ row "setregid" (some 114) (some 143)
    ∷ row "setgroups" (some 116) (some 159)
    ∷ row "setresuid" (some 117) (some 147)
    ∷ row "setresgid" (some 119) (some 149)
    ∷ row "setfsuid" (some 122) (some 151)
    ∷ row "setfsgid" (some 123) (some 152)
    ∷ row "capset" (some 126) (some 91)
    ∷ row "msgget" (some 68) (some 186)
    ∷ row "msgsnd" (some 69) (some 189)
    ∷ row "msgrcv" (some 70) (some 188)
    ∷ row "msgctl" (some 71) (some 187)
    ∷ row "semget" (some 64) (some 190)
    ∷ row "semop" (some 65) (some 193)
    ∷ row "semctl" (some 66) (some 191)
    ∷ row "semtimedop" (some 220) (some 192)
    ∷ row "shmget" (some 29) (some 194)
    ∷ row "shmat" (some 30) (some 196)
    ∷ row "shmctl" (some 31) (some 195)
    ∷ row "shmdt" (some 67) (some 197)
    ∷ row "mq_open" (some 240) (some 180)
    ∷ row "mq_unlink" (some 241) (some 181)
    ∷ row "mq_timedsend" (some 242) (some 182)
    ∷ row "mq_timedreceive" (some 243) (some 183)
    ∷ row "mq_notify" (some 244) (some 184)
    ∷ row "mq_getsetattr" (some 245) (some 185)
    ∷ row "inotify_init" (some 253) none
    ∷ row "inotify_init1" (some 294) (some 26)
    ∷ row "inotify_add_watch" (some 254) (some 27)
    ∷ row "inotify_rm_watch" (some 255) (some 28)
    ∷ row "fanotify_init" (some 300) (some 262)
    ∷ row "fanotify_mark" (some 301) (some 263)
    ∷ row "open_tree" (some 428) (some 428)
    ∷ row "open_tree_attr" (some 467) (some 467)
    ∷ row "mount_setattr" (some 442) (some 442)
    ∷ row "fsconfig" (some 431) (some 431)
    ∷ row "fsopen" (some 430) (some 430)
    ∷ row "fsmount" (some 432) (some 432)
    ∷ row "fspick" (some 433) (some 433)
    ∷ row "move_mount" (some 429) (some 429)
    ∷ row "listmount" (some 458) (some 458)
    ∷ row "statmount" (some 457) (some 457)
    ∷ row "settimeofday" (some 164) (some 170)
    ∷ row "clock_settime" (some 227) (some 112)
    ∷ row "adjtimex" (some 159) (some 171)
    ∷ row "clock_adjtime" (some 305) (some 266)
    ∷ row "sethostname" (some 170) (some 161)
    ∷ row "setdomainname" (some 171) (some 162)
    ∷ row "personality" (some 135) (some 92)
    ∷ row "quotactl" (some 179) (some 60)
    ∷ row "quotactl_fd" (some 443) (some 443)
    ∷ row "lookup_dcookie" (some 212) (some 18)
    ∷ row "nfsservctl" (some 180) (some 42)
    ∷ row "kexec_file_load" (some 320) (some 294)
    ∷ row "lsm_set_self_attr" (some 460) (some 460)
    ∷ row "sync" (some 162) (some 81)
    ∷ row "syncfs" (some 306) (some 267)
    ∷ row "truncate" (some 76) (some 45)
    ∷ row "io_setup" (some 206) (some 0)
    ∷ row "io_destroy" (some 207) (some 1)
    ∷ row "io_getevents" (some 208) (some 4)
    ∷ row "io_submit" (some 209) (some 2)
    ∷ row "io_cancel" (some 210) (some 3)
    ∷ row "io_pgetevents" (some 333) (some 292)
    ∷ row "file_getattr" (some 468) (some 468)
    ∷ row "file_setattr" (some 469) (some 469)
    ∷ row "listns" (some 470) (some 470)
    ∷ row "fchroot" (some 472) (some 472)
    ∷ row "setxattrat" (some 463) (some 463)
    ∷ row "removexattrat" (some 466) (some 466)
    ∷ row "getxattr" (some 191) (some 8)
    ∷ row "lgetxattr" (some 192) (some 9)
    ∷ row "listxattr" (some 194) (some 11)
    ∷ row "llistxattr" (some 195) (some 12)
    ∷ row "getxattrat" (some 464) (some 464)
    ∷ row "listxattrat" (some 465) (some 465)
    ∷ row "mbind" (some 237) (some 235)
    ∷ row "set_mempolicy" (some 238) (some 237)
    ∷ row "set_mempolicy_home_node" (some 450) (some 450)
    ∷ row "memfd_secret" (some 447) (some 447)
    ∷ row "mknodat" (some 259) (some 33)
    ∷ row "linkat" (some 265) (some 37)
    ∷ row "symlinkat" (some 266) (some 36)
    ∷ row "renameat" (some 264) (some 38)
    ∷ row "renameat2" (some 316) (some 276)
    ∷ row "unlinkat" (some 263) (some 35)
    ∷ row "mkdirat" (some 258) (some 34)
    ∷ row "remap_file_pages" (some 216) (some 234)
    ∷ row "copy_file_range" (some 326) (some 285)
    ∷ row "sendfile" (some 40) (some 71)
    ∷ row "splice" (some 275) (some 76)
    ∷ row "tee" (some 276) (some 77)
    ∷ row "sync_file_range" (some 277) (some 84)
    ∷ row "readahead" (some 187) (some 213)
    ∷ row "fallocate" (some 285) (some 47)
    ∷ row "signalfd4" (some 289) (some 74)
    ∷ row "timer_create" (some 222) (some 107)
    ∷ row "timer_delete" (some 226) (some 111)
    ∷ row "timer_settime" (some 223) (some 110)
    ∷ row "timer_gettime" (some 224) (some 108)
    ∷ row "timer_getoverrun" (some 225) (some 109)
    ∷ row "pkey_alloc" (some 330) (some 289)
    ∷ row "pkey_free" (some 331) (some 290)
    ∷ row "pkey_mprotect" (some 329) (some 288)
    ∷ row "process_mrelease" (some 448) (some 448)
    ∷ row "landlock_create_ruleset" (some 444) (some 444)
    ∷ row "landlock_add_rule" (some 445) (some 445)
    ∷ row "landlock_restrict_self" (some 446) (some 446)
    ∷ row "lsm_get_self_attr" (some 459) (some 459)
    ∷ row "lsm_list_modules" (some 461) (some 461)
    ∷ row "seccomp" (some 317) (some 277)
    ∷ row "mkdir" (some 83) none
    ∷ row "rmdir" (some 84) none
    ∷ row "creat" (some 85) none
    ∷ row "link" (some 86) none
    ∷ row "unlink" (some 87) none
    ∷ row "symlink" (some 88) none
    ∷ row "rename" (some 82) none
    ∷ row "mknod" (some 133) none
    ∷ row "uselib" (some 134) none
    ∷ row "modify_ldt" (some 154) none
    ∷ row "_sysctl" (some 156) none
    ∷ row "migrate_pages" (some 256) (some 238)
    ∷ row "move_pages" (some 279) (some 239)
    ∷ []
