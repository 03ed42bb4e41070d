-- ===== src/Share/Node/Service.antt =====
-- driver/filestorage/nodeserver.go as a server: the requests it takes, in the order they come.
use csi_bizflycloud.Base.{List, [], ◌∷◌}
use csi_bizflycloud.Share.Util.{NodeRequest}
use csi_bizflycloud.Share.Node.{
  NodeServer, node_get_volume_stats, node_publish_volume, node_stage_volume, node_unpublish_volume,
  node_unstage_volume,
}
use csi_bizflycloud.Share.Plugin.{Plugin}
use csi_bizflycloud.Csi.{StatsRequest}

-- The requests of the node service that reach the state of the server.
pub data NodeCall : Type 0 where
  publishing unpublishing staging unstaging : NodeRequest → NodeCall
  asking_stats : StatsRequest → NodeCall

module _ (plugin : Plugin) where
  unfoldable pub node_serve : NodeCall → NodeServer → NodeServer
  node_serve (publishing r) ns = (node_publish_volume plugin r ns).1
  node_serve (unpublishing r) ns = (node_unpublish_volume plugin r ns).1
  node_serve (staging r) ns = (node_stage_volume plugin r ns).1
  node_serve (unstaging r) ns = (node_unstage_volume plugin r ns).1
  node_serve (asking_stats r) ns = (node_get_volume_stats plugin r ns).1

  unfoldable pub node_serve_all : List NodeCall → NodeServer → NodeServer
  node_serve_all [] ns = ns
  node_serve_all (c ∷ cs) ns = node_serve_all cs (node_serve c ns)
