-- ===== src/System/Tests.antt =====
-- system/system_linux.go: a node whose first `uname` fails on a broken pipe.
use runetale.Common.{ℕ, ◌+◌, ◌≡◌, refl, some, List, [], ◌∷◌, arith, ◌==◌, if◌then◌else◌, All, ok}
use runetale.System.Text.{codes, has_prefix, text_contains}
use runetale.System.Info.{SystemCalls, get_info}
use runetale.System.Release.{Assignment, IsPlain, print_release}
use runetale.System.Reads.{
  Uname, print_uname, Whole, at_once, after_broken, info_of, get_info-Reads,
}

abbrev small_uname : Uname
small_uname = record {
  kernel_word = codes "Linux";
  core_word = codes "6.1";
  platform_word = codes "x86";
  os_word = codes "GNU/Linux";
}

abbrev small_release : List Assignment
small_release =
    record { key = codes "PRETTY_NAME"; text = codes "Debian 12" }
    ∷ record { key = codes "NAME"; text = codes "Debian" }
    ∷ record { key = codes "VERSION_ID"; text = codes "12" }
    ∷ []

-- The world counts the commands; pauses change nothing.
abbrev second_try : SystemCalls ℕ
second_try = record {
  get_info_text =
      λ w. (if w == 0 then codes "uname: broken pipe" else print_uname small_uname, w + 1);
  get_release_text = λ w. (print_release small_release, w + 1);
  pause = λ w. w;
  goos = codes "linux";
  num_cpu = 4;
  hostname_text = codes "node";
}

second_try-Whole : Whole second_try 1 (second_try.get_info_text 0) (print_uname small_uname) 2
unfolding text_contains has_prefix
second_try-Whole = after_broken refl (at_once refl)

small_release-IsPlain : All IsPlain small_release
small_release-IsPlain = (
  record {
    key_lacks_eq = omega arith;
    key_lacks_newline = omega arith;
    text_lacks_eq = omega arith;
    text_lacks_quote = omega arith;
    text_lacks_newline = omega arith;
  },
  (
    record {
      key_lacks_eq = omega arith;
      key_lacks_newline = omega arith;
      text_lacks_eq = omega arith;
      text_lacks_quote = omega arith;
      text_lacks_newline = omega arith;
    },
    (
      record {
        key_lacks_eq = omega arith;
        key_lacks_newline = omega arith;
        text_lacks_eq = omega arith;
        text_lacks_quote = omega arith;
        text_lacks_newline = omega arith;
      },
      tt,
    ),
  ),
)

get_info-Reads_example :
    get_info second_try 2 0 ≡ some (ok (info_of second_try small_uname small_release), 3)
get_info-Reads_example =
    get_info-Reads second_try 2 1 small_uname small_release
      (record {
        kernel_plain = omega arith;
        core_plain = omega arith;
        platform_plain = omega arith;
        os_plain = omega arith;
      })
      second_try-Whole (omega arith) refl small_release-IsPlain
