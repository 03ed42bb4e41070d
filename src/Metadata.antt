-- ===== src/Metadata.antt =====
-- k8s.io/cloud-provider-openstack/pkg/util/metadata, which the repository does not hold: the
-- answers of the metadata service, as a parameter.
use csi_bizflycloud.Base.{String}
use csi_bizflycloud.Base.Go.{GoError, Result}

pub record Metadata : Type 0 where
  pub instance_id : Result GoError String
  pub availability_zone : Result GoError String
  -- metadata.GetDevicePath
  pub device_path : String → String
