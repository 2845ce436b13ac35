-- ===== src/Config.antt =====
-- config.h and config.cpp. The file system and the JSON library are parameters: what reading the
-- file gives, and what `Get` finds under a key, which is nothing where the text is no object with
-- such a key or its value is of another type; `Get` then leaves its target
-- alone. Negative numbers are left out.
use httpd_cpp.Base.{ℕ, List, [], Option, none, some}
use httpd_cpp.Bytes.{codes}

-- The numbers are indeterminate, `none`, until they are read.
pub record Config : Type 0 where
  pub root : List ℕ
  pub port : Option ℕ
  pub thread_num : Option ℕ

unfoldable pub new : Config
new = record { root = []; port = none; thread_num = none }

-- `CJsonObject`, made from a text.
pub record Json : Type 0 where
  pub get_string : List ℕ → Option (List ℕ)
  pub get_int : List ℕ → Option ℕ

-- `fstream` gives nothing where the file cannot be opened for reading and writing.
unfoldable pub read_conf :
    (List ℕ → Option (List ℕ)) → (List ℕ → Json) → List ℕ → Config → ℕ × Config
read_conf read parse filename c =
    let str : List ℕ = elim (read filename) [ none ↦ [] | some text ↦ text ] in
    let json = parse str in
    let c : Config = elim (json.get_string (codes "root")) [
      | none ↦ c
      | some root ↦ record c { root = root }
    ] in
    let c : Config = elim (json.get_int (codes "port")) [
      | none ↦ c
      | some port ↦ record c { port = some port }
    ] in
    let c : Config = elim (json.get_int (codes "thread_num")) [
      | none ↦ c
      | some n ↦ record c { thread_num = some n }
    ] in
    (0, c)

unfoldable pub get_root : Config → List ℕ
get_root c = c.root

unfoldable pub get_port : Config → Option ℕ
get_port c = c.port

unfoldable pub get_thread_num : Config → Option ℕ
get_thread_num c = c.thread_num

-- `handle_for_sigpipe` hands `sigaction` the signal and the handler SIG_IGN; its answer is dropped.
abbrev sigpipe : ℕ
sigpipe = 13

abbrev sig_ign : ℕ
sig_ign = 1

unfoldable pub handle_for_sigpipe {ℓ} : {A : Type ℓ} → (ℕ → ℕ → A) → A
handle_for_sigpipe sigaction = sigaction sigpipe sig_ign

-- main_config.cpp: what `sigaction` makes of its call, and what is printed, a line each.
unfoldable pub main {ℓ} :
    {A : Type ℓ}
    → (List ℕ → Option (List ℕ))
    → (List ℕ → Json)
    → (ℕ → ℕ → A)
    → A × List ℕ × Option ℕ × Option ℕ
unfolding new read_conf get_root get_port get_thread_num handle_for_sigpipe
main read parse sigaction =
    let c = (read_conf read parse (codes "./httpd.json") new).1 in
    let ignored = handle_for_sigpipe sigaction in
    (ignored, get_root c, get_port c, get_thread_num c)
