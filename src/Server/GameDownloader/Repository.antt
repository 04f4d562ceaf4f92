-- ===== src/Server/GameDownloader/Repository.antt =====
-- Server/Internals/GameDownloader.cpp: `cloneOrUpdateRepository` on every path.
use flakkari.Prelude.{
  Bool, ◌+◌, ◌≡◌, refl, false, not, ◌&&◌, if◌then◌else◌, arith, ok, throws, system_error, none,
  some, Option-cases, inl, inr,
}
use flakkari.Server.GameDownloader.{
  Answers, Held, update_submodules, clone_repository, fetch_repository, update_repository,
  replace_or_update, clone_or_update_repository,
}

-- What `cloneOrUpdateRepository` returns when it knows whether something is there.
abbrev pub succeeds : Answers → Bool → Bool
succeeds a there =
    if there && (a.opens && a.has_origin)
    then a.fetches
    else if there && (not a.opens && not a.removes_all)
    then false
    else a.clones

-- `cloneOrUpdateRepository` on every path. Where the file system cannot say whether the local path exists,
-- it throws, and leaves libgit2 initialised once more than before. Otherwise it returns with the library,
-- the repositories and the remotes held as before, and with true exactly if the step that it came to
-- worked: the fetch of a repository with an origin, which it does not merge; nothing, for another directory
-- that cannot be removed; and the clone in every other case.
pub clone_or_update_repository-held :
    (a : Answers) (h : Held)
    → clone_or_update_repository a h ≡ elim a.exists [
      | none ↦ (throws system_error, record h { libraries = h.libraries + 1 })
      | some there ↦ (ok (succeeds a there), h)
    ]
unfolding clone_or_update_repository replace_or_update update_repository clone_repository
    fetch_repository update_submodules
clone_or_update_repository-held a h = elim (Option-cases a.exists) [
  | inl e ↦ rw (e, clone_or_update_repository) refl
  | inr (there, e) ↦ rw (e, clone_or_update_repository) (ground arith)
]
