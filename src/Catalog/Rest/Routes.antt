-- ===== src/Catalog/Rest/Routes.antt =====
-- services/catalog/internal/rest: the patterns of workspaceRoutes, storeRoutes and layerRoutes, all
-- under /rest, each with its handler. The patterns under /api/v1 (apiv1.go), whose handlers change
-- the same tables, are not among them.
use giti.Prelude.{[], Text}
use giti.Gateway.Http.{HttpRequest}
use giti.Catalog.Rest.{Wire, Reply, Catalog}
use giti.Catalog.Rest.Workspaces.{
  list_workspaces_h, create_workspace_h, get_workspace_h, update_workspace_h, delete_workspace_h,
  create_store_h, get_store_h, list_stores_h, update_store_h, delete_store_h,
}
use giti.Catalog.Rest.Resources.{
  create_feature_type_h, get_feature_type_h, list_feature_types_h, delete_feature_type_h,
  create_coverage_h, get_coverage_h, delete_coverage_h,
}
use giti.Catalog.Rest.Layers.{
  get_layer_h, list_layers_h, update_layer_h, delete_layer_h, create_layer_group_h,
  get_layer_group_h, delete_layer_group_h,
}
use giti.Catalog.Rest.Styles.{
  create_style_h, get_style_h, list_styles_h, update_style_h, delete_style_h,
}

-- The patterns with their path values. A store's kind is that of its pattern; a pattern without a
-- workspace has an empty one.
pub data Route : Type 0 where
  get_workspaces : Route
  post_workspaces : Route
  get_workspace_at : Text → Route
  put_workspace_at : Text → Route
  delete_workspace_at : Text → Route
  get_stores : Text → Text → Route
  post_stores : Text → Text → Route
  get_store_at : Text → Text → Text → Route
  put_store_at : Text → Text → Text → Route
  delete_store_at : Text → Text → Text → Route
  post_feature_types : Text → Text → Route
  get_feature_types : Text → Text → Route
  get_feature_type_at : Text → Text → Text → Route
  delete_feature_type_at : Text → Text → Text → Route
  post_coverages : Text → Text → Route
  get_coverage_at : Text → Text → Text → Route
  delete_coverage_at : Text → Text → Text → Route
  get_layers : Route
  get_layer_at : Text → Route
  put_layer_at : Text → Route
  delete_layer_at : Text → Route
  post_styles : Text → Route
  get_styles : Route
  get_style_at : Text → Text → Route
  put_style_at : Text → Route
  delete_style_at : Text → Route
  post_groups : Text → Route
  get_group_at : Text → Text → Route
  delete_group_at : Text → Text → Route

-- The handler of a pattern under /rest.
unfoldable pub handle : Wire → HttpRequest → Route → Catalog → Reply × Catalog
unfolding list_workspaces_h create_workspace_h get_workspace_h update_workspace_h delete_workspace_h
    create_store_h get_store_h list_stores_h update_store_h delete_store_h create_feature_type_h
    get_feature_type_h list_feature_types_h delete_feature_type_h create_coverage_h get_coverage_h
    delete_coverage_h get_layer_h list_layers_h update_layer_h delete_layer_h create_style_h
    get_style_h list_styles_h update_style_h delete_style_h create_layer_group_h get_layer_group_h
    delete_layer_group_h
handle w r get_workspaces c = (list_workspaces_h w r c, c)
handle w r post_workspaces c = create_workspace_h w r c
handle w r (get_workspace_at ws) c = (get_workspace_h w r ws c, c)
handle w r (put_workspace_at ws) c = update_workspace_h w r ws c
handle w r (delete_workspace_at ws) c = delete_workspace_h w r ws c
handle w r (get_stores kind ws) c = (list_stores_h w r kind ws c, c)
handle w r (post_stores kind ws) c = create_store_h w r kind ws c
handle w r (get_store_at kind ws name) c = (get_store_h w r kind ws name c, c)
handle w r (put_store_at kind ws name) c = update_store_h w r kind ws name c
handle w r (delete_store_at kind ws name) c = delete_store_h w r ws name c
handle w r (post_feature_types ws ds) c = create_feature_type_h w r ws ds c
handle w r (get_feature_types ws ds) c = (list_feature_types_h w r ws ds c, c)
handle w r (get_feature_type_at ws ds ft) c = (get_feature_type_h w r ws ds ft c, c)
handle w r (delete_feature_type_at ws ds ft) c = delete_feature_type_h w r ws ds ft c
handle w r (post_coverages ws cs) c = create_coverage_h w r ws cs c
handle w r (get_coverage_at ws cs v) c = (get_coverage_h w r ws cs v c, c)
handle w r (delete_coverage_at ws cs v) c = delete_coverage_h w r ws cs v c
handle w r get_layers c = (list_layers_h w r c, c)
handle w r (get_layer_at layer) c = (get_layer_h w r layer c, c)
handle w r (put_layer_at layer) c = update_layer_h w r layer c
handle w r (delete_layer_at layer) c = delete_layer_h w r layer c
handle w r (post_styles ws) c = create_style_h w r ws c
handle w r get_styles c = (list_styles_h w r [] c, c)
handle w r (get_style_at ws s) c = (get_style_h w r ws s c, c)
handle w r (put_style_at s) c = update_style_h w r [] s c
handle w r (delete_style_at s) c = delete_style_h w r [] s c
handle w r (post_groups ws) c = create_layer_group_h w r ws c
handle w r (get_group_at ws lg) c = (get_layer_group_h w r ws lg c, c)
handle w r (delete_group_at ws lg) c = delete_layer_group_h w r ws lg c
