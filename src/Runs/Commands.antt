-- ===== src/Runs/Commands.antt =====
-- `main` with the playground of five members.
use etcdlabs.Prelude.{ℕ, ◌≡◌, refl, none, some, ret, panics, codes}
use etcdlabs.Cluster.View.{active_node_n}
use etcdlabs.Cluster.Types.{good}
use etcdlabs.Web.Server.{World, Server, stop_server}
use etcdlabs.Command
use etcdlabs.Command.{signalled, stop_notified, main, main_lem}
use etcdlabs.Runs.{platform, library, show}
use etcdlabs.Runs.Servers.{
  buckets, counter, playing, answer, server_of, playground, later_on, Boots, boots, start_up,
  served_all, hashed,
}

main_lem_example :
    (srv' : Server) × (down : World ℕ ℕ) × (main buckets counter platform playing
        (good (codes "/tmp/c"))
        none
        (λ s x. (s, later_on))
        signalled
        (λ i. 30)
      ≡ ret (some (srv', down)))
    × (active_node_n down.backend.cluster ≡ 0)
    × (srv₂ : Server) × (w₂ : World ℕ ℕ) × (stop_server platform
          (λ i. 20)
          (server_of answer)
          later_on
        ≡ ret (srv₂, w₂))
    × (main buckets counter platform playing
          (good (codes "/tmp/c"))
          none
          (λ s x. (srv₂, w₂))
          stop_notified
          (λ i. 30)
        ≡ panics)
unfolding Command.web_port
main_lem_example =
    main_lem show buckets counter platform library Boots playing (good (codes "/tmp/c")) none
      (server_of answer) playground later_on (λ i. 30) (λ i. 20) stop_notified hashed boots
      (λ j. refl) start_up served_all
