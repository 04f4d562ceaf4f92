-- ===== src/Server/CommandManager/Locked.antt =====
-- Server/Internals/CommandManager.cpp: what the password protects.
use flakkari.Prelude.{
  ◌≡◌, refl, ap, subst, ◌∙◌, [], ◌∷◌, ◌++◌, List, Bool, true, false, not, ◌&&◌, Option, none, some,
  Bytes, text_eq, text_eq_refl, text_eq_iff, codes, drop, ok, ==_refl, ==_iff, arith, Bool-cases,
  inl, inr, Option-cases,
}
use flakkari.Server.GameManager.{ConfigFile}
use flakkari.Server.CommandManager.{
  Console, all_words, is_name, after_prefix, regex_match, handle_password_command,
  handle_admin_command, handle_command, handle_commands,
}

-- The line that gives the password.
abbrev pub unlock_line : Bytes → Bytes
unlock_line pw = codes "unlock " ++ pw

-- Whether no line gives the password.
unfoldable pub unlocks_never : Option Bytes → List Bytes → Bool
unlocks_never password [] = true
unlocks_never password (input ∷ inputs) =
    elim password [ none ↦ true | some pw ↦ not (text_eq (unlock_line pw) input) ]
    && unlocks_never password inputs

after_prefix-append :
    (cs input rest : Bytes) → after_prefix cs input ≡ some rest → input ≡ cs ++ rest
unfolding after_prefix
after_prefix-append [] input rest h = ground arith
after_prefix-append (c ∷ cs) [] rest h = absurd (ground arith)
after_prefix-append (c ∷ cs) (d ∷ input) rest h =
    ground (arith, after_prefix-append cs input rest, ==_iff c d)

after_prefix_self : (cs rest : Bytes) → after_prefix cs (cs ++ rest) ≡ some rest
unfolding after_prefix
after_prefix_self [] rest = refl
after_prefix_self (c ∷ cs) rest = rw (==_refl c, after_prefix_self cs rest) refl

-- From a locked console, the line with the password unlocks exactly if the password is not empty and has
-- only letters, digits, underscores and dashes: a password with any other character never unlocks.
pub handle_password_command-unlock_line :
    (pw : Bytes)
    → handle_password_command (some pw) (unlock_line pw) false ≡ (is_name pw, is_name pw)
unfolding handle_password_command regex_match is_name after_prefix
handle_password_command-unlock_line [] = refl
handle_password_command-unlock_line (c ∷ cs) = elim (Bool-cases (all_words (c ∷ cs))) [
  | inl e ↦ rw (e, text_eq_refl (c ∷ cs)) refl
  | inr e ↦ rw e refl
]

regex_match-drop :
    (pw input : Bytes)
    → regex_match (codes "unlock ") input ≡ true
    → text_eq (drop 7 input) pw ≡ true
    → input ≡ unlock_line pw
unfolding regex_match
regex_match-drop pw input matched same =
    elim (Option-cases (after_prefix (codes "unlock ") input)) [
      | inl e ↦ absurd (ground arith)
      | inr (rest, e) ↦
          let split = after_prefix-append (codes "unlock ") input rest e in
          split
          ∙ ap unlock_line
              ((text_eq_iff rest pw).0 (subst (λ x. text_eq (drop 7 x) pw ≡ true) split same))
    ]

handle_password_command-locked :
    (password : Option Bytes) (input : Bytes)
    → unlocks_never password (input ∷ []) ≡ true
    → (handle_password_command password input false).1 ≡ false
unfolding handle_password_command unlocks_never
handle_password_command-locked none input h = ground arith
handle_password_command-locked (some []) input h = ground arith
handle_password_command-locked (some (c ∷ cs)) input h =
    ground (arith, regex_match-drop (c ∷ cs) input, text_eq_refl (unlock_line (c ∷ cs)))

handle_command-locked :
    (password : Option Bytes) (files : Bytes → ConfigFile) (input : Bytes) (k : Console)
    → k.unlocked ≡ false
    → unlocks_never password (input ∷ []) ≡ true
    → handle_command password files input k ≡ ok k
unfolding handle_command handle_admin_command
handle_command-locked password files input k locked h =
    ground (arith, handle_password_command-locked password input h)

-- From a locked console, lines that do not give the environment's password have no effect, however many
-- they are: every game stays as it is, the console stays locked, and nothing raises an exception, `exit`
-- included.
pub handle_commands-locked :
    (password : Option Bytes) (files : Bytes → ConfigFile) (inputs : List Bytes) (k : Console)
    → k.unlocked ≡ false
    → unlocks_never password inputs ≡ true
    → handle_commands password files inputs k ≡ ok k
unfolding handle_commands unlocks_never
handle_commands-locked password files [] k locked h = refl
handle_commands-locked password files (input ∷ inputs) k locked h =
    rw (handle_command-locked password files input k locked (ground arith))
      (handle_commands-locked password files inputs k locked (ground arith))
