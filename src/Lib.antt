-- ===== src/Lib.antt =====
-- A model of cloud-native-tour: the API group greeting.foen.ye (crd-getting-started), the registration
-- API of kube-aggregator with its informers, and the controller of operators/application-operator.
--
-- Both API groups have an internal version, through which the others convert, and for each version a
-- generated protocol-buffer codec, conversions, defaults and copies. The API server reads an object
-- with the codec, sets its defaults and converts it; the informer factories make, start and stop the
-- watchers of such objects, which hand out copies. The operator's controller makes pods for an
-- Application.
--
-- Which file models what:
-- - Common: lists, bytes, strings and integers over the native numbers.
-- - Memory: pointers, slices, `new` and `make`. Memory/Copy says when a copy is deep.
-- - Wire: what the generated codecs share, from
--   crd-getting-started/pkg/apis/greeting/v1/generated.pb.go: Wire/Varint (sovGenerated,
--   encodeVarintGenerated and the inline loop that reads a number), Wire/Skip (skipGenerated),
--   Wire/Buffer (the statements of MarshalToSizedBuffer), Wire/Unmarshal (the frame of Unmarshal),
--   Wire/Field (what is repeated for each field; Field/Pieces puts fields together), Wire/Message
--   (what one codec asks of the codec of a message inside it), Wire/Result (a value, an error or a
--   panic).
-- - Greeting/V1/SpecCodec, FooCodec and ListCodec: Size, Marshal, MarshalTo, MarshalToSizedBuffer and
--   Unmarshal of FooSpec, Foo and FooList in the same file.
-- - Greeting/Internal and Greeting/V1/Types: types.go and v1/types.go.
-- - Greeting/V1/Conversion: v1/conversion.go and v1/zz_generated.conversion.go.
-- - Greeting/V1/Defaults: v1/defaults.go and v1/zz_generated.defaults.go.
-- - Greeting/V2: the types of v2 and the codecs of the six messages of v2/generated.pb.go;
--   v2/zz_generated.conversion.go, v2/defaults.go and v2/zz_generated.defaults.go.
-- - Greeting/Internal/DeepCopy, V1/DeepCopy and V2/DeepCopy: zz_generated.deepcopy.go of each version.
-- - Greeting/Heap: Go's maps, as references into a heap, since the conversions share them.
-- - Registration/Hub, V1 and V1beta1: kube-aggregator/pkg/apis/registration, its directories v1 and
--   v1beta1, with types.go, zz_generated.conversion.go, defaults.go, zz_generated.defaults.go and
--   zz_generated.deepcopy.go. The code of v1beta1 is that of v1, so are its definitions.
-- - Registration/V1/ReferenceCodec, SpecCodec, ConditionCodec, StatusCodec, ServiceCodec and ListCodec:
--   the six messages of v1/generated.pb.go there. Wire/Varint/Int32, Wire/Field/Number and
--   Wire/Repeated have what its fields need beyond those of greeting: int32, bool, pointers, slices.
-- - Informers/Factory: kube-aggregator/pkg/client/informers/externalversions/factory.go, the methods
--   as functions of the factory's state. Factory/Steps is the relation that a call, or a goroutine's
--   end, is one step of; Factory/Phases has the abstract factory. Informers/GreetingFactory is the
--   same code in crd-getting-started/pkg/client/informers/externalversions/factory.go. Informers/Maps:
--   Go's maps. Informers/Resources: generic.go there and registration/v1/apiservice.go;
--   Informers/GreetingResources: generic.go and greeting/v1/foo.go of crd-getting-started;
--   Informers/V1beta1Resources and V2Resources: those files of the other version.
-- - Clients: the constructors of kube-aggregator/pkg/client/clientset_generated/clientset and of
--   crd-getting-started/pkg/client/clientset_generated/clientset. Clients/Typed is the client of a
--   group version, Clients/Clientset that of a group, and Clients/Groups has an instance for each.
-- - OpenApi: kube-aggregator/pkg/generated/openapi/zz_generated.openapi.go and that file of
--   crd-getting-started. OpenApi/Schema has the types they fill, OpenApi/Definitions the maps that
--   GetOpenAPIDefinitions returns, and a module each the schemas of related types.
--   OpenApi/References says what it takes for a definition to be closed.
-- - Operator: Reconcile of
--   operators/application-operator/internal/controller/application_controller.go, with the types of
--   operators/application-operator/api/v1/application_types.go and the copies of
--   zz_generated.deepcopy.go beside it.
--
-- How the code is read. A byte slice is the list of its bytes, and MarshalTo's buffer is the slice up
-- to its capacity. A string is its bytes. A Go int is its 64-bit pattern, the patterns from 2 ^ 63 on
-- being negative, and sums wrap around. A function that changes what its argument points to returns
-- it. The theorems on codecs take slices shorter than 2 ^ 63 bytes, which every Go slice is. Where
-- memory may be shared, a pointer is what it refers to together with an address, and memory is handed
-- out by counting addresses up. A map is an association list and is ranged over in its order. An
-- int32 is an integer, read as the low 32 bits of what the loop shifts together.
--
-- Bounds and fuel. A varint takes ten bytes at most: the loop that writes one has ten rounds, the loop
-- that reads one eleven, the last of which reports an overflow. Unmarshal and skipGenerated have one
-- round more than the input has bytes, since each round takes a byte. The controller's loop has one
-- round more than there are replicas. `stuck`, and `none` of the controller's loop, mean that fuel ran
-- out.
--
-- Parameters. The metadata types of k8s.io/apimachinery are type parameters; of their codecs
-- Wire/Message states what is relied on (the laws of a codec, and that canonical values stay so), of
-- ObjectMeta's fields Greeting/ObjectMeta, of their copies Memory/Copy's Copier, and of the conversion
-- of a port pointer PortConversion. ptr.To of k8s.io/utils gives a new pointer. The clients' ClientGo has what they call of client-go. Of an informer, its
-- SetTransform and its wait for a sync are parameters. The client of controller-runtime is a record of
-- its calls, and Operator/Reconcile/Again states what the API server promises of Create. The OpenAPI
-- definitions take the callback `ref` and the schema types of k8s.io/apimachinery's times.
--
-- Not modelled: the codecs of registration/v1beta1, the code of which is that of v1; the generated
-- clients and listers of a resource, which hold no logic of their own; the descriptions in OpenAPI
-- schemas; registration with schemes and managers, logging, and the commands, which call libraries
-- only.
pub mod Common
pub mod Memory
pub mod Wire
pub mod Greeting
pub mod Registration
pub mod Informers
pub mod Clients
pub mod OpenApi
pub mod Operator
