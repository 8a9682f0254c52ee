-- ===== src/Cmd/Init/Rounds.antt =====
-- What the scheduler enqueues after the program got ready, cmd/root.go and app/scheduler.go.
use zackup.Base.{
  ℕ, true, false, Option, List, [], ◌∷◌, Str, str_eq, contains, All, ◌≡◌, sym, ◌∙◌, ap,
}
use zackup.Base.Dict.{is_some}
use zackup.Config.Service.{ServiceConfig}
use zackup.Config.Tree.{Platform, Tree, hosts, host}
use zackup.App.Scheduler.{Readings, Call}
use zackup.App.Scheduler.Stuck.{rounds}
use zackup.App.Scheduler.Jobs.{IsOfTree, KeepsJobs, rounds-IsOfTree}
use zackup.Cmd.Init.{Flags, root_of, Outside, ready, init_config}
use zackup.Cmd.Init.Ready.{AllNamed, init_config-IsReady, contains-hosts}

-- The call is for a host of the tree, with its job, which is not nil.
abbrev pub HasTreeJob : Tree → Call → Type 0
HasTreeJob t c = (c.1 ≡ host c.0 t) × (is_some c.1 ≡ true)

tree_jobs :
    (svc : ServiceConfig) (t : Tree) (calls : List Call)
    → All (IsOfTree (λ name. host name t) (contains (hosts t)) svc) calls
    → All (HasTreeJob t) calls
tree_jobs svc t [] _ = tt
tree_jobs svc t ((name, job) ∷ calls) ((same, known), rest) =
    ((same, ap is_some same ∙ sym (contains-hosts name t) ∙ known), tree_jobs svc t calls rest)

-- Where the program gets ready, with a root that is not empty, and the names of the hosts can be
-- read back from those of their datasets: the rounds of the scheduler, any number of them, in
-- whichever order they visit whichever hosts, enqueue nothing but hosts of the tree, each with the job
-- that the tree has, and never a nil job. Between the rounds nothing changes the state, and what other
-- goroutines do during a round keeps the hosts and their jobs.
pub init_config-rounds :
    (parse_float : Str → Option ℕ) (platform : Platform) (outside : Outside) (flags : Flags)
    (env : Str) (svc : ServiceConfig) (rs : List (Readings × List Str))
    → let p = init_config parse_float platform outside flags env in
      str_eq (root_of flags env) [] ≡ false
      → p.exit ≡ ready
      → AllNamed parse_float platform outside p
      → All (λ r. KeepsJobs (λ name. host name p.tree) (contains (hosts p.tree)) svc r.0) rs
      → All (HasTreeJob p.tree) (rounds svc rs p.state).1
init_config-rounds parse_float platform outside flags env svc rs given ended named keeps =
    let p = init_config parse_float platform outside flags env in
    let r = init_config-IsReady parse_float platform outside flags env given ended named in
    tree_jobs svc p.tree _ (
      rounds-IsOfTree (λ name. host name p.tree) (contains (hosts p.tree)) svc rs p.state keeps
        r.has_jobs)
